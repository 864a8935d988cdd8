-- ===== src/JsonStream/Once.antt =====
-- What CollectJSONStream (json.go) has written when it returns.
use ftdc.Prelude.{
  ℕ, ◌==◌, ◌≡◌, ◌⊎◌, refl, inl, inr, ap, sym, Bool-cases, Option-cases, List, [], ◌∷◌, Bool, true,
  false, Option, none, some, arith,
}
use ftdc.Result.{Error, ok, Result-cases}
use ftdc.Bson.{Text, Document}
use ftdc.Codec.{Codec}
use ftdc.Input.{Outcome}
use ftdc.Collector.Dynamic
use ftdc.Collector.Dynamic.{DynamicCollector, new_dynamic_collector}
use ftdc.JsonStream.{
  CollectJsonOptions, Event, canceled, source_error, document_read, timer_fired, Collecting, is_eof,
  validate, output_file, after_write_file, save, flusher, collect, collect_json_stream,
}

-- The documents, with the clock's readings, before the first event of another kind.
abbrev pub leading : List Event → List (ℕ × Document)
leading [] = []
leading (canceled ∷ events) = []
leading (source_error e ∷ events) = []
leading (document_read now doc ∷ events) = (now, doc) ∷ leading events
leading (timer_fired ∷ events) = []

-- Whether an event of another kind is among them.
abbrev pub ends : List Event → Bool
ends [] = false
ends (canceled ∷ events) = true
ends (source_error e ∷ events) = true
ends (document_read now doc ∷ events) = ends events
ends (timer_fired ∷ events) = true

written :
    {F : Type 0} (s : Collecting F) (w : Outcome F) {t : Collecting F}
    → after_write_file s w ≡ (t, none)
    → w ≡ (t.files, none)
unfolding after_write_file
written s (files, some e) h = ground arith
written s (files, none) {t} h = ap (λ o. (o.0.files, none)) h

module _ {F : Type 0} (codec : Codec) (write_file : Text → List ℕ → F → Outcome F) where
  -- A collector to which documents were added.
  abbrev pub added : List (ℕ × Document) → DynamicCollector → DynamicCollector
  added [] c = c
  added ((now, doc) ∷ docs) c = let (c', e) = Dynamic.add codec now doc c in added docs c'

  -- One file at most with all samples of a collector.
  abbrev pub Saved : CollectJsonOptions → ℕ → DynamicCollector → F → F → Type 0
  Saved opts n c before after =
      (((Dynamic.info c).sample_count ≡ 0) × (after ≡ before))
      ⊎ ((output : List ℕ) × (Dynamic.resolve codec c ≡ ok output)
          × (write_file (output_file opts n) output before ≡ (after, none)))

  flusher-Saved :
      (opts : CollectJsonOptions) (s : Collecting F) (t : Collecting F)
      → flusher codec write_file opts s ≡ (t, none)
      → Saved opts s.output_count s.collector s.files t.files
  unfolding flusher save
  flusher-Saved opts s t h = elim (Bool-cases ((Dynamic.info s.collector).sample_count == 0)) [
    | inl e ↦
        let same : s ≡ t = ground (arith, h, e) in
        inl (ground (arith, e), ap (λ (r : Collecting F). r.files) (sym same))
    | inr e ↦ elim (Result-cases (Dynamic.resolve codec s.collector)) [
      | inl (output, p) ↦
          let w = write_file (output_file opts s.output_count) output s.files in
          let h' : after_write_file s w ≡ (t, none) = ground (arith, h, e, p) in
          inr (output, p, written s w h')
      | inr (x, p) ↦ absurd (ground (arith, h, e, p))
    ]
  ]

  collect-Saved :
      (opts : CollectJsonOptions) (events : List Event) (s t : Collecting F)
      → collect codec write_file opts events s ≡ some (t, none)
      → Saved opts s.output_count (added (leading events) s.collector) s.files t.files
  unfolding collect
  collect-Saved opts [] s t h = absurd (ground arith)
  collect-Saved opts (canceled ∷ events) s t h = absurd (ground arith)
  collect-Saved opts (source_error none ∷ events) s t h = flusher-Saved opts s t (ground arith)
  collect-Saved opts (source_error (some e) ∷ events) s t h = elim (Bool-cases (is_eof e)) [
    | inl q ↦ flusher-Saved opts s t (ground (arith, h, q))
    | inr q ↦ absurd (ground (arith, h, q))
  ]
  collect-Saved opts (document_read now doc ∷ events) s t h =
      let r = Dynamic.add codec now doc s.collector in
      let s' : Collecting F = record s { collector = r.0 } in
      elim (Option-cases r.1) [
        | inl q ↦ collect-Saved opts events s' t (ground (arith, h, q))
        | inr (x, q) ↦ absurd (ground (arith, h, q))
      ]
  collect-Saved opts (timer_fired ∷ events) s t h = flusher-Saved opts s t (ground arith)

  collect-returns :
      (opts : CollectJsonOptions) (events : List Event) (s : Collecting F)
      → ends events ≡ true
      → (r : Outcome (Collecting F)) × (collect codec write_file opts events s ≡ some r)
  unfolding collect
  collect-returns opts [] s h = absurd (ground arith)
  collect-returns opts (canceled ∷ events) s h = (_, refl)
  collect-returns opts (source_error none ∷ events) s h = (_, refl)
  collect-returns opts (source_error (some e) ∷ events) s h = (_, refl)
  collect-returns opts (document_read now doc ∷ events) s h =
      let r = Dynamic.add codec now doc s.collector in
      let s' : Collecting F = record s { collector = r.0 } in
      elim (Option-cases r.1) [
        | inl q ↦ let (u, rest) = collect-returns opts events s' h in (u, ground (arith, rest, q))
        | inr (x, q) ↦ ((s', some x), ground (arith, q))
      ]
  collect-returns opts (timer_fired ∷ events) s h = (_, refl)

  -- CollectJSONStream with valid options returns when it has received anything but a document. It
  -- returns an error, or it has written nothing where the collector counts no sample, or else the
  -- bytes that the collector resolves to, as one file with the number 0. The collector is a new
  -- dynamic one after Add of every document received before.
  pub collect_json_stream_lem :
      (opts : CollectJsonOptions) (events : List Event) (files : F)
      → validate opts ≡ none
      → ends events ≡ true
      → (t : Collecting F) × (failure : Option Error) × (collect_json_stream codec write_file opts
            events files
          ≡ some (t, failure))
        × (((e : Error) × (failure ≡ some e))
            ⊎ ((failure ≡ none)
                × Saved opts 0
                    (added (leading events) (new_dynamic_collector opts.sample_count))
                    files
                    t.files))
  unfolding collect_json_stream
  collect_json_stream_lem opts events files v h =
      let s : Collecting F = record {
        output_count = 0;
        collector = new_dynamic_collector opts.sample_count;
        files = files;
      } in
      let ((t, failure), q) = collect-returns opts events s h in
      (
        t,
        failure,
        ground (arith, v, q),
        elim (Option-cases failure) [
          | inl n ↦ inr (n, collect-Saved opts events s t (ground (arith, q, n)))
          | inr f ↦ inl f
        ],
      )
