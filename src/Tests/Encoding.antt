-- ===== src/Tests/Encoding.antt =====
-- Base64, at concrete inputs.
use libwebsock.Prelude.{
  some, replicate, refl, ◌+◌, ◌≤◌, ◌<◌, ◌≡◌, ◌⊎◌, [], ◌∷◌, ◌++◌, arith, length, drop, ok, pos,
}
use libwebsock.Base64.{encode_source, base64_encode, base64_decode}
use libwebsock.Base64.Ends.{Ends, base64_decode-Ends}
use libwebsock.Base64.Decode.{base64_decode-encode_source}
use libwebsock.Tests.Data.{ample}
use libwebsock.Base64.Target.{base64_encode-fits}

base64_encode-fits_example :
    ((5 < length (encode_source (1 ∷ 2 ∷ 3 ∷ [])) + 1)
      × (base64_encode (1 ∷ 2 ∷ 3 ∷ []) (9 ∷ 9 ∷ 9 ∷ 9 ∷ 9 ∷ []) 5
          ≡ ok (9 ∷ 9 ∷ 9 ∷ 9 ∷ 9 ∷ [], pos 0)))
    ⊎ ((length (encode_source (1 ∷ 2 ∷ 3 ∷ [])) + 1 ≤ 5)
        × (base64_encode (1 ∷ 2 ∷ 3 ∷ []) (9 ∷ 9 ∷ 9 ∷ 9 ∷ 9 ∷ []) 5
            ≡ ok (
              (encode_source (1 ∷ 2 ∷ 3 ∷ []) ++ 0 ∷ [])
                  ++ drop
                      (length (encode_source (1 ∷ 2 ∷ 3 ∷ []) ++ 0 ∷ []))
                      (9 ∷ 9 ∷ 9 ∷ 9 ∷ 9 ∷ []),
              pos 1,
            )))
base64_encode-fits_example =
    base64_encode-fits (1 ∷ 2 ∷ 3 ∷ []) (9 ∷ 9 ∷ 9 ∷ 9 ∷ 9 ∷ []) (omega arith) (omega arith)

base64_decode-encode_source_example :
    base64_decode ample (encode_source (77 ∷ 97 ∷ 110 ∷ 33 ∷ []) ++ 0 ∷ []) (replicate 8 7) 8
    ≡ ok ((77 ∷ 97 ∷ 110 ∷ 33 ∷ []) ++ drop 4 (replicate 8 7), some 4)
base64_decode-encode_source_example =
    base64_decode-encode_source ample (77 ∷ 97 ∷ 110 ∷ 33 ∷ []) [] (replicate 8 7) 8 (omega arith)
      (omega arith) (omega arith) refl

-- "Z*===g" is no Base64.
base64_decode-Ends_example :
    Ends
      (replicate 4 7)
      4
      (base64_decode ample ((90 ∷ 42 ∷ 61 ∷ 61 ∷ 61 ∷ 103 ∷ []) ++ 0 ∷ []) (replicate 4 7) 4)
base64_decode-Ends_example =
    base64_decode-Ends ample (90 ∷ 42 ∷ 61 ∷ 61 ∷ 61 ∷ 103 ∷ []) [] (replicate 4 7) 4 (omega arith)
      (omega arith) refl
