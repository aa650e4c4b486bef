-- ===== src/Tests/Handler.antt =====
-- internal/ego/handler.go at work.
use cli_control_account.Base.{◌≡◌, refl, [], true, false, ◌||◌, none, some, if◌then◌else◌}
use cli_control_account.Base.Int.{pos, negsuc, ◌-ℤ◌}
use cli_control_account.Base.Word.{sub64, wrap64}
use cli_control_account.Text.{Text, text, eq_text}
use cli_control_account.Text.Number.{parse_int, digits, digits_from}
use cli_control_account.Ego.Queries.Window.{QueryWindow}
use cli_control_account.Ego.Worker.{started}
use cli_control_account.Ego.Handler.{
  Request, today_window, read_window, serve_http, handle_post_settings,
}
use cli_control_account.Ego.Handler.Replies.{IsCoherent, serve_http-IsCoherent}
use cli_control_account.Ego.Handler.Limits.{IsToday, read_window-IsToday}
use cli_control_account.Ego.Handler.Settings.{settings_of, handle_post_settings_lem}
use cli_control_account.Tests.Fixtures.{
  plain_unicode, whole_float, two_events, storage_of, idle, plain_env,
}

parse_int_test :
    (parse_int (text "-42") ≡ (negsuc 41, true))
    × (parse_int (text "+7") ≡ (pos 7, true))
    × (parse_int (text "7x") ≡ (pos 0, false))
    × (parse_int (text "9223372036854775808") ≡ (pos 9_223_372_036_854_775_807, false))
unfolding parse_int digits digits_from
parse_int_test = (refl, refl, refl, refl)

-- A request with one query parameter `key`.
abbrev request : Text → Text → Text → Text → Request
request method url_path key value = record {
  method = method;
  url_path = url_path;
  query = λ k. if eq_text k key then value else [];
  body = none;
  content_length = pos 0;
}

get_is_no_post : eq_text (text "GET") (text "POST") ≡ false
unfolding eq_text
get_is_no_post = refl

put_is_no_get : eq_text (text "PUT") (text "GET") ≡ false
unfolding eq_text
put_is_no_get = refl

put_is_no_post : eq_text (text "PUT") (text "POST") ≡ false
unfolding eq_text
put_is_no_post = refl

-- One hour of today.
abbrev today : Request
today = record (request (text "GET") (text "/ego/api/stats") (text "range") (text "today")) {
  query = λ k.
      if eq_text k (text "range")
      then text "today"
      else if eq_text k (text "start")
      then text "1000"
      else text "3601000";
}

abbrev one_hour : QueryWindow
one_hour = record { start = pos 1_000; end = pos 3_601_000 }

is_today : today.query (text "range") ≡ text "today"
unfolding eq_text
is_today = refl

accepted : read_window (pos 5) today ≡ some one_hour
unfolding read_window today_window eq_text parse_int digits digits_from sub64 wrap64 ◌-ℤ◌
accepted = refl

read_window-IsToday_example : IsToday one_hour
read_window-IsToday_example = read_window-IsToday (pos 5) today one_hour is_today accepted

abbrev turn_off : Request
turn_off = request (text "POST") (text "/ego/api/settings") (text "enabled") (text "false")

handle_post_settings_lem_example :
    let on =
      eq_text (turn_off.query (text "enabled")) (text "true")
      || eq_text (turn_off.query (text "enabled")) (text "1") in
    let (response, w') = handle_post_settings plain_env idle turn_off in
    (w'.enabled ≡ on)
    × (started plain_env.faults w'.storage ≡ on)
    × (response ≡ settings_of plain_env on (storage_of two_events) two_events)
unfolding eq_text
handle_post_settings_lem_example =
    handle_post_settings_lem plain_env idle turn_off (storage_of two_events) two_events (λ c. refl)
      refl refl refl

serve_http-IsCoherent_example :
    IsCoherent
      (serve_http plain_env idle
        (request (text "POST") (text "/ego/api/settings") (text "enabled") (text "0"))).0
serve_http-IsCoherent_example =
    serve_http-IsCoherent plain_env idle
      (request (text "POST") (text "/ego/api/settings") (text "enabled") (text "0"))
