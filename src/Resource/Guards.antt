-- ===== src/Resource/Guards.antt =====
-- What internal/handlers/resource.go answers with a page.
use cli_control_account.Base.{◌≡◌, refl, ◌⊎◌, List, [], true, false, Option, arith}
use cli_control_account.Text.{Text, text, eq_text, has_prefix, contains, Unicode}
use cli_control_account.Text.Laws.{eq_text-eq}
use cli_control_account.Web.{Asset, found, refused}
use cli_control_account.Resource.{ResourceRequest, page, request_path, asset_answer, serve_resource}

module _ ⦃u : Unicode⦄ (read_file : Text → Option Text) (mime_by_extension : Text → Text)
    (version base_path : Text) where
  asset_answer_ok :
      (req : ResourceRequest) (a : Asset)
      → (asset_answer req a).status ≡ 200
      → (data' : Text) × (mime : Text) × (a ≡ found data' mime)
  asset_answer_ok req (refused e) h = absurd (ground arith)
  asset_answer_ok req (found d m) h = (d, m, refl)

  -- A request that is answered with 200 is a GET or a HEAD, has no `..` in any of the three forms
  -- of its path (the decoded URL path, the raw path, and the path that is looked up), and the path
  -- that is looked up begins with the base path.
  pub serve_resource_ok :
      (req : ResourceRequest)
      → (serve_resource read_file mime_by_extension version base_path req).status ≡ 200
      → ((req.method ≡ text "GET") ⊎ (req.method ≡ text "HEAD"))
        × (contains (request_path req) (text "..") ≡ false)
        × (contains req.url_path (text "..") ≡ false)
        × (contains req.raw_path (text "..") ≡ false)
        × (has_prefix (request_path req) base_path ≡ true)
  unfolding serve_resource
  serve_resource_ok req h = (
    ground (arith, eq_text-eq req.method (text "GET"), eq_text-eq req.method (text "HEAD")),
    ground arith,
    ground arith,
    ground arith,
    ground arith,
  )

  -- A HEAD request gets the status and the headers of the GET request for the same path, and no
  -- body.
  pub serve_resource_head :
      (req : ResourceRequest)
      → let get =
          serve_resource read_file mime_by_extension version base_path
            (record req { method = text "GET" }) in
        let head =
          serve_resource read_file mime_by_extension version base_path
            (record req { method = text "HEAD" }) in
        (head.status ≡ get.status)
        × ((headers : List (Text × Text)) (body : Text)
            → get.reply ≡ page headers body
            → head.reply ≡ page headers [])
  unfolding serve_resource eq_text request_path
  serve_resource_head req = (ground arith, λ headers body. ground arith)
