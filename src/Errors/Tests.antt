-- ===== src/Errors/Tests.antt =====
-- Errors as the transport and the processors see them, classified.
use sprawler.Common.{ℕ, ◌≡◌, refl, false, none, List, [], ◌∷◌, ◌||◌, if◌then◌else◌}
use sprawler.Model.{throttle, server_error, network, unknown, timeout}
use sprawler.Errors.Defs.{
  GoError, stream_error, go_away, message, wrapped, canceled, eof, deadline_exceeded, parse_error,
  some_link, is_deadline, is_stream_error, stream_code, root, status_code, digits_value,
  status_category, network_category, is_transient_net_error, is_connection_reset,
  is_http2_stream_error,
}
use sprawler.Errors.Classes.{Consistent, parse_error-transient, parse_error-Consistent}

-- The bytes of `err.Error()` for the roots of the tests.
abbrev error_text : GoError → List ℕ
error_text (message s) = b'4' ∷ b'2' ∷ b'9' ∷ b' ' ∷ []
error_text eof = b'E' ∷ b'O' ∷ b'F' ∷ []
error_text canceled = b'5' ∷ b'0' ∷ b'3' ∷ b' ' ∷ []
error_text go_away = b'4' ∷ b'2' ∷ []
error_text _ = b's' ∷ b't' ∷ b'r' ∷ b'e' ∷ []

abbrev refused : GoError
refused = wrapped "fetch users" (stream_error 7)

abbrev flow_control : GoError
flow_control = wrapped "fetch users" (stream_error 3)

throttled_test :
    parse_error error_text (wrapped "get sites" (message "throttled")) ≡ (throttle, 429)
unfolding parse_error some_link root status_code digits_value status_category
throttled_test = refl

busy_test : parse_error error_text canceled ≡ (server_error, 503)
unfolding parse_error some_link root status_code digits_value status_category
busy_test = refl

short_test : parse_error error_text go_away ≡ (network, 0)
unfolding parse_error some_link root status_code network_category
short_test = refl

late_test : parse_error error_text (wrapped "get" deadline_exceeded) ≡ (timeout, 0)
unfolding parse_error some_link
late_test = refl

-- A stream error of another code is a network error for the outcome, yet no transient one for the
-- transport.
flow_control_test :
    (is_transient_net_error flow_control ≡ false)
    × (parse_error error_text flow_control ≡ (network, 0))
unfolding parse_error some_link root status_code digits_value network_category stream_code
    is_transient_net_error is_connection_reset is_http2_stream_error
flow_control_test = (refl, refl)

refused_late : some_link is_deadline refused ≡ false
unfolding some_link
refused_late = refl

refused_status : status_code (error_text (root refused)) ≡ none
unfolding status_code root digits_value
refused_status = refl

parse_error-transient_example : parse_error error_text refused ≡ (
  (if is_transient_net_error refused || some_link is_stream_error refused
      then network
      else unknown),
  0,
)
parse_error-transient_example = parse_error-transient error_text refused refused_late refused_status

parse_error-Consistent_example : Consistent (parse_error error_text (message "throttled"))
parse_error-Consistent_example = parse_error-Consistent error_text (message "throttled")
