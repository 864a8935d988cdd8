-- ===== src/Tests/Bson.antt =====
-- The bytes of BSON at a concrete document.
use ftdc.Prelude.{◌≡◌, refl, true, [], ◌∷◌, length}
use ftdc.Bson.{Document, end, element, Value, nil, cons}
use ftdc.Bson.Encode.{document_bytes, marshal_bson, check_document, size_document}
use ftdc.Bson.Encode.Size.{HasIds, length-marshal_bson}

abbrev small_document : Document
small_document =
    element (b'a' ∷ []) (Value.int32 7)
      (element (b'l' ∷ []) (Value.array (cons (Value.boolean true) nil)) end)

length-marshal_bson_example : length (document_bytes small_document) ≡ size_document small_document
unfolding marshal_bson check_document HasIds
length-marshal_bson_example =
    length-marshal_bson small_document (document_bytes small_document) (tt, ((tt, tt), tt)) refl
