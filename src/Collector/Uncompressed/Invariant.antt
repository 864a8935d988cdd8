-- ===== src/Collector/Uncompressed/Invariant.antt =====
-- The states of an uncompressedCollector (collector_uncompressed.go), and the bytes of its Resolve.
use ftdc.Prelude.{
  ℕ, ◌≤◌, ◌≡◌, ◌≢◌, refl, ◌∙◌, List, [], ◌∷◌, ◌++◌, Option, none, some, Bool, true, false, ◌&&◌,
  leb, ◌==◌, if◌then◌else◌, arith, length, length-append, ◌⊎◌, inl, inr, Bool-cases, Option-cases,
}
use ftdc.Result.{ok, err, invalid_binary_subtype}
use ftdc.Word.{All, All-append, All-map}
use ftdc.Bson.{Document, len}
use ftdc.Codec.{Codec}
use ftdc.Bson.Encode.{check_document, document_bytes, marshal_bson}
use ftdc.Collector.Uncompressed.{
  UncompressedCollector, count_metrics, add, marshal_write, write_samples, resolve,
}

-- An empty document leaves the count at 0, so that the next one sets it.
abbrev pub HasCount : ℕ → Document → Type 0
HasCount n d = (len d ≡ 0) ⊎ (len d ≡ n)

-- No more samples than fit, and all of them with as many elements as were counted, or with none.
pub record IsValid (c : UncompressedCollector) : Type 0 where
  pub within : length c.samples ≤ c.batch_size
  pub even : All (HasCount c.metric_count) c.samples

recount : (n m : ℕ) → n ≡ 0 → (d : Document) → HasCount n d → HasCount m d
recount n m e d (inl h) = inl h
recount n m e d (inr h) = inl (h ∙ e)

count_metrics-IsValid :
    (doc : Document) (c : UncompressedCollector) → IsValid c → IsValid (count_metrics doc c)
unfolding count_metrics
count_metrics-IsValid doc c v =
    let within = v.within in
    elim (Bool-cases (c.metric_count == 0)) [
      | inl e ↦
          let zero_count : c.metric_count ≡ 0 = ground (arith, e) in
          let even = All-map _ _ (recount c.metric_count (len doc) zero_count) c.samples v.even in
          rw (e, count_metrics) (record { within = within; even = even })
      | inr e ↦ rw (e, count_metrics) v
    ]

store-IsValid :
    (doc : Document) (c : UncompressedCollector)
    → IsValid c
    → len doc ≡ c.metric_count
    → length c.samples ≤ c.batch_size
    → leb c.batch_size (length c.samples) ≡ false
    → IsValid (record c { samples = c.samples ++ (doc ∷ []) })
store-IsValid doc c v e l room = record {
  within = ground (arith, length-append c.samples (doc ∷ []), room);
  even = All-append (HasCount c.metric_count) c.samples (doc ∷ []) v.even (inr e, tt);
}

-- Add of an uncompressedCollector keeps no more samples than fit, each of them with the counted
-- number of elements or with none.
pub add_uncompressed-IsValid :
    (doc : Document) (c : UncompressedCollector) → IsValid c → IsValid (add doc c).0
unfolding add
add_uncompressed-IsValid doc c v =
    let c' = count_metrics doc c in
    let v' = count_metrics-IsValid doc c v in
    elim (Bool-cases (len doc == c'.metric_count)) [
      | inr e ↦ rw (e, add) v'
      | inl e ↦ elim (Bool-cases (leb c'.batch_size (length c'.samples))) [
        | inl full ↦ rw (e, full, add) v'
        | inr room ↦ rw (e, room, add) (store-IsValid doc c' v' (ground (arith, e)) v'.within room)
      ]
    ]

not_empty : (ds : List Document) → ds ≢ [] → (length ds == 0) ≡ false
not_empty [] h = absurd (h refl)
not_empty (d ∷ ds) h = ground arith

-- Whether MarshalBSON takes every document, and the bytes of all of them.
abbrev pub all_valid : List Document → Bool
all_valid [] = true
all_valid (d ∷ ds) = check_document d && all_valid ds

abbrev pub all_bytes : List Document → List ℕ
all_bytes [] = []
all_bytes (d ∷ ds) = document_bytes d ++ all_bytes ds

abbrev pub metadata_valid : Option Document → Bool
metadata_valid none = true
metadata_valid (some m) = check_document m

abbrev pub metadata_bytes : Option Document → List ℕ
metadata_bytes none = []
metadata_bytes (some m) = document_bytes m

module _ (codec : Codec) where
  write_bson :
      (c : UncompressedCollector) (ds : List Document)
      → c.export_bson ≡ true
      → c.export_json ≡ false
      → write_samples codec c ds
        ≡ (if all_valid ds then ok (all_bytes ds) else err invalid_binary_subtype)
  unfolding write_samples marshal_write marshal_bson
  write_bson c [] b j = refl
  write_bson c (d ∷ ds) b j = elim (Bool-cases (check_document d)) [
    | inr p ↦ rw (b, j, p) refl
    | inl p ↦ elim (Bool-cases (all_valid ds)) [
      | inl q ↦ rw (b, j, p, rw (q) at (write_bson c ds b j), q) refl
      | inr q ↦ rw (b, j, p, rw (q) at (write_bson c ds b j), q) refl
    ]
  ]

  -- Resolve of an uncompressedCollector that exports BSON and no JSON, with a sample, returns the
  -- bytes of the metadata, where there is any, and of all samples, one behind the other, where
  -- MarshalBSON takes all of these documents, and else its error.
  pub resolve_bson :
      (c : UncompressedCollector)
      → c.export_bson ≡ true
      → c.export_json ≡ false
      → c.samples ≢ []
      → resolve codec c ≡ (
          if metadata_valid c.metadata && all_valid c.samples
          then ok (metadata_bytes c.metadata ++ all_bytes c.samples)
          else err invalid_binary_subtype)
  unfolding resolve
  resolve_bson c b j some_samples =
      let n : (length c.samples == 0) ≡ false = not_empty c.samples some_samples in
      elim (Option-cases c.metadata) [
        | inl m ↦ rw (n, m) (write_bson c c.samples b j)
        | inr (doc, m) ↦ rw (n, m) (write_bson c (doc ∷ c.samples) b j)
      ]
