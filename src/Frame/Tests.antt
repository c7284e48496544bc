-- ===== src/Frame/Tests.antt =====
-- Examples for internal/tunnel/protocol.go, data frames.
use mqtt_forward.Prelude.{Text, codes, ok, ◌≡◌, [], ◌∷◌, arith}
use mqtt_forward.Frame.{encode_data_frame, decode_data_frame, decode-encode}

decode-encode_example :
    decode_data_frame (encode_data_frame 4_294_967_295 (codes "data"))
    ≡ ok (4_294_967_295, codes "data")
decode-encode_example = decode-encode 4_294_967_295 (codes "data") (omega arith)

abbrev five_bytes : Text
five_bytes = 1 ∷ 2 ∷ 3 ∷ 4 ∷ 5 ∷ []
