-- ===== src/Utility.antt =====
-- pkg/api/utility/v1beta1/handler.go: the offset of the server's time zone. The clock and the
-- offset of its zone, in seconds east of UTC, are arguments.
pub mod Offset
use bke_console_service.Prelude.{
  ℕ, suc, ◌/◌, ◌%◌, [], ◌∷◌, ◌++◌, some, ltb, if◌then◌else◌, Bool, true, false,
}
use bke_console_service.Prelude.Int.{ℤ, pos, negsuc}
use bke_console_service.Text.{Text, codes}
use bke_console_service.Text.Decimal.{digits, format_int}
use bke_console_service.World.{Dict, put, Time, unix}
use bke_console_service.Http.Bodies.{ResponseJson}

-- fmt.Sprintf("%02d", n)
unfoldable pub pad2 : ℕ → Text
unfolding digits
pad2 n = if ltb n 10 then b'0' ∷ digits (suc n) n else digits (suc n) n

-- The sign and the magnitude of an offset.
unfoldable pub sign_of : ℤ → Text
sign_of (pos n) = codes "+"
sign_of (negsuc n) = codes "-"

unfoldable pub magnitude : ℤ → ℕ
magnitude (pos n) = n
magnitude (negsuc n) = suc n

unfoldable pub offset_string : ℤ → Text
unfolding pad2 sign_of magnitude
offset_string offset =
    let hours = magnitude offset / 3600 in
    let minutes = magnitude offset % 3600 / 60 in
    codes "UTC" ++ (sign_of offset ++ (pad2 hours ++ b':' ∷ pad2 minutes))

-- The status and the entity of an answer.
pub record Entity : Type 0 where
  pub status : ℕ
  pub body : ResponseJson (Dict Text)

-- getCurrentTimeOffset
unfoldable pub get_current_time_offset : Time → ℤ → Entity
unfolding offset_string format_int put
get_current_time_offset current_server_time offset =
    let offsets = put (codes "offset") (offset_string offset) [] in
    record {
      status = 200;
      body = record {
        code = pos 200;
        msg = codes "success";
        contents =
            some (put (codes "currentServerTime") (format_int (unix current_server_time)) offsets);
      };
    }
