-- ===== src/Tests/ToyCodec.antt =====
-- Libraries for the examples, in which nothing is compressed, and documents.
use ftdc.Prelude.{ℕ, ◌<◌, ◌^◌, length, ◌≢◌, refl, List, [], ◌∷◌, ◌==◌, arith}
use ftdc.Result.{ok}
use ftdc.Word.{sub64, sub64-IsWord}
use ftdc.Bson.{Value, Document, end, element}
use ftdc.Bson.Encode.{document_bytes, size_document, size_elements}
use ftdc.Bson.Decode.Encodable.{IsPlainDocument}
use ftdc.Bson.Decode.RoundTrip.{IsEncodable}
use ftdc.Codec.{Codec, CodecLaws}
use ftdc.Collector.Better.{
  BetterCollector, new_base_collector, chunk_document, get_payload, started,
}
use ftdc.Collector.Better.History.{add_all}

-- `{a: n}`
abbrev pub count_document : ℕ → Document
count_document n = element (b'a' ∷ []) (Value.int64 n) end

pub count_document-IsEncodable : (n : ℕ) → n < 2 ^ 64 → IsEncodable (count_document n)
unfolding IsPlainDocument size_document size_elements
count_document-IsEncodable n h = record { plain = ((omega arith, tt), h, tt); short = omega arith }

pub chunk_document-IsEncodable :
    (id : ℕ) (bytes : List ℕ)
    → id < 2 ^ 64
    → length bytes < 2 ^ 30
    → IsEncodable (chunk_document id bytes)
unfolding IsPlainDocument size_document size_elements chunk_document
chunk_document-IsEncodable id bytes h l = record {
  plain = (
    (omega arith, (omega arith, (omega arith, tt))),
    h,
    (
      (omega arith, (omega arith, (omega arith, (omega arith, tt)))),
      omega arith,
      ((omega arith, (omega arith, (omega arith, (omega arith, tt)))), refl, tt),
    ),
  );
  short = omega (arith, l);
}

-- Nothing is compressed.
abbrev pub toy_codec : Codec
toy_codec = record {
  compress = λ bytes. bytes;
  decompress = λ bytes. ok bytes;
  ext_json = λ doc. ok (document_bytes doc);
  fnv64 = λ bytes. 7 ∷ bytes;
  md5 = λ bytes. bytes;
  sha1 = λ bytes. bytes;
  float_sub = sub64;
  float_is = λ n bits. n == bits;
}

pub sum_not_nil : (bytes : List ℕ) → (7 ∷ bytes) ≢ []
sum_not_nil bytes e = cc

abbrev pub toy_laws : CodecLaws toy_codec
toy_laws = record {
  float_sub-IsWord = sub64-IsWord;
  fnv64-ne-nil = sum_not_nil;
  decompress-compress = λ bytes. refl;
}

-- A reference, two documents behind it, and a collector with room for four.
abbrev pub reference : Document
reference = count_document 5

abbrev pub later_documents : List (ℕ × Document)
later_documents = (20, count_document 9) ∷ (30, count_document 3) ∷ []

abbrev pub empty_collector : BetterCollector
empty_collector = new_base_collector 4

abbrev pub full_collector : BetterCollector
full_collector = (add_all sub64 ((10, reference) ∷ later_documents) empty_collector).0

-- The document that Resolve writes for it.
abbrev pub chunk : Document
chunk =
    chunk_document (started full_collector.started_at)
      (get_payload toy_codec reference full_collector)
