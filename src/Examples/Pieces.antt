-- ===== src/Examples/Pieces.antt =====
-- `usb_responder_protocol_read_frame` of src/protocol.c on a frame in three pieces.
use epass_usb_responder.Prelude.{◌≡◌, refl, List, [], ◌∷◌, ◌++◌, arith, ℕ}
use epass_usb_responder.Protocol.Stream.{ReadAnswer, gave, took, read_frame}
use epass_usb_responder.Protocol.Stream.Read.{given, read_frame-given}
use epass_usb_responder.Examples.Wire.{grants, are_bytes_lem, chunk_raw, chunk_back, chunk_decodes}

abbrev first_piece : List ℕ
first_piece = 83 ∷ 65 ∷ 80 ∷ 69 ∷ 1 ∷ 0 ∷ 11 ∷ []

abbrev second_piece : List ℕ
second_piece = 0 ∷ 0 ∷ 0 ∷ 0 ∷ 0 ∷ 7 ∷ 0 ∷ 0 ∷ 0 ∷ 2 ∷ 0 ∷ 0 ∷ 0 ∷ 172 ∷ 42 ∷ 147 ∷ 216 ∷ []

abbrev front : List (List ℕ)
front = first_piece ∷ second_piece ∷ []

abbrev back : List (List ℕ)
back = (104 ∷ 105 ∷ []) ∷ []

-- One more piece follows.
abbrev rest : List ReadAnswer
rest = gave (83 ∷ []) ∷ []

read_frame-given_example :
    read_frame grants 1024 (given front ++ (given back ++ rest)) ≡ took chunk_back rest
read_frame-given_example =
    read_frame-given grants (λ n. refl) 1024 front back chunk_back rest
      (omega arith, (omega arith, tt)) (omega arith, tt) refl (are_bytes_lem chunk_raw refl)
      chunk_decodes (omega arith)
