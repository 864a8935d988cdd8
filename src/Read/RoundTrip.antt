-- ===== src/Read/RoundTrip.antt =====
-- From the collector to the samples: documents of one schema, added to a betterCollector
-- (collector_better.go), written by Resolve, read back by ReadChunks (read.go) and restored by the
-- chunk's structured iterator (iterator_sample.go).
use ftdc.Bson.Decode.RoundTrip.{IsEncodable}
use ftdc.Prelude.{
  ℕ, suc, ◌+◌, ◌^◌, ◌≤◌, ◌<◌, ◌≡◌, refl, sym, ap, ◌∙◌, List, [], ◌∷◌, Option, none, some, true,
  arith, length, get_or, get_elem?, get_or-some, get_elem?-length,
}
use ftdc.Input.{Outcome}
use ftdc.Result.{Error, ok}
use ftdc.Word.{All, All-map}
use ftdc.Bson.{Value, Document}
use ftdc.Codec.{Codec, CodecLaws}
use ftdc.Metrics.Extract.{extract_from_document}
use ftdc.Metrics.Extract.Kinds.{fit_document}
use ftdc.Metrics.Exact.{
  IsInt, exact_document, extract_from_document-IsInt, extract_from_document-length,
}
use ftdc.Metrics.Flatten.{metric_for_document}
use ftdc.Metrics.Flatten.Agree.{
  metric_for_document-types, length-metric_for_document, metric_for_document-starts,
}
use ftdc.Metrics.Restore.RoundTrip.{SameFields, metrics_of_document, restore_document-extract}
use ftdc.Collector.Better.{BetterCollector, values_of, add_reference, written_documents, resolve}
use ftdc.Collector.Better.Invariant.{IsValid}
use ftdc.Collector.Better.Schema.{Ready, OfSchema, add_all-none}
use ftdc.Collector.Better.History.{
  add_all, Follows, Continues, SameHead, Follows-add_all, add_all_first, Follows-first,
}
use ftdc.Read.{Chunk, read_stream}
use ftdc.Read.Payload.{series_of}
use ftdc.Read.Series.{Starts, Recorded, HoldsAt-series_of}
use ftdc.Read.Stream.{chunk_of, metadata_of, read_stream-resolve}
use ftdc.Chunk.{structured_document}
use ftdc.Read.Documents.{values_at, get_or-All, Continues-from, Starts-from}

module _ (codec : Codec) (laws : CodecLaws codec) (now : ℕ) (reference : Document)
    (docs : List (ℕ × Document)) (empty : BetterCollector) where
  -- The collector after all documents.
  abbrev pub filled : BetterCollector
  filled = (add_all codec.float_sub ((now, reference) ∷ docs) empty).0

  -- What the collector starts from, and the documents it is given.
  pub record Accepted : Type 0 where
    pub valid : IsValid empty
    pub unset : empty.reference ≡ none
    pub exact : exact_document reference ≡ true
    pub schema : OfSchema reference ((now, reference) ∷ docs)
    pub fits : length docs ≤ empty.max_deltas
    pub few : length (extract_from_document now reference).values < 2 ^ 32
    pub short : length docs < 2 ^ 32

  module _ (h : Accepted) where
    hist : ℕ → List Value
    hist = values_at (now, reference) docs

    first : BetterCollector
    first = (add_reference now reference empty).0

    first-Follows : Follows codec.float_sub hist 0 first
    unfolding first hist
    first-Follows = Follows-first codec.float_sub hist now reference empty h.valid h.unset refl

    first-Ready : Ready now reference (length docs) first
    unfolding first add_reference
    first-Ready = record {
      valid = first-Follows.valid;
      set = refl;
      types = refl;
      counts = refl;
      fits = omega (arith, h.fits, h.valid.unset h.unset);
    }

    rest :
        (add_all codec.float_sub ((now, reference) ∷ docs) empty)
        ≡ (add_all codec.float_sub docs first)
    unfolding first
    rest = add_all_first codec.float_sub now reference docs empty h.unset

    all-none : (add_all codec.float_sub docs first).1 ≡ none
    all-none = add_all-none codec.float_sub now reference docs first first-Ready h.schema.1

    ints : (j : ℕ) → All IsInt (hist j)
    unfolding hist
    ints j =
        get_or-All (λ x. All IsInt (extract_from_document x.0 x.1).values) ((now, reference) ∷ docs)
          j (now, reference)
          (All-map _ _ (λ x s. extract_from_document-IsInt x.0 s h.exact) ((now, reference) ∷ docs)
            h.schema)
          (extract_from_document-IsInt now h.schema.0 h.exact)

    sized : (j : ℕ) → length (hist j) ≡ length (extract_from_document now reference).values
    unfolding hist
    sized j =
        get_or-All
          (λ x.
            length (extract_from_document x.0 x.1).values
            ≡ length (extract_from_document now reference).values)
          ((now, reference) ∷ docs) j (now, reference)
          (All-map _ _ (λ x s. extract_from_document-length now x.0 s) ((now, reference) ∷ docs)
            h.schema)
          refl

    starts : Starts (metric_for_document [] reference) (hist 0)
    unfolding hist
    starts =
        Starts-from _ _ _ (metric_for_document-starts now reference h.exact)
          (metric_for_document-types now reference) (fit_document now reference) (ints 0)

    continues : Continues hist 0 docs
    unfolding hist
    continues =
        Continues-from hist (now, reference) docs 0
          (λ i. let e : 1 + i ≡ suc i = omega arith in rw e refl)

    end_Follows : Follows codec.float_sub hist (0 + length docs) filled × SameHead first filled
    end_Follows =
        Follows-add_all codec.float_sub laws.float_sub-IsWord hist docs 0 reference first filled
          first-Follows (unfold first add_reference in refl) continues
          (sym rest
            ∙ ap (λ (o : Option Error). (filled, o))
                (ap (λ (o : Outcome BetterCollector). o.1) rest ∙ all-none))

    filled-Recorded : Recorded codec.float_sub hist filled (metric_for_document [] reference)
    filled-Recorded = record {
      follows = (_, end_Follows.0);
      ints = ints;
      sized = λ j k. sized j ∙ sym (sized k);
      starts = starts;
    }

    many : filled.num_samples ≡ length docs
    many = end_Follows.0.counted ∙ omega arith

    same_count : length (metric_for_document [] reference) ≡ length (values_of filled.last_sample)
    same_count =
        length-metric_for_document now reference
        ∙ (sym (sized (0 + length docs))
            ∙ ap (λ (l : List Value). length l) (sym end_Follows.0.latest))

    set : filled.reference ≡ some reference
    set = end_Follows.1.0 ∙ (unfold first add_reference in refl)

    the_chunk : Chunk
    the_chunk = chunk_of (metadata_of filled) reference filled

    samples :
        (j later : ℕ) (doc : Document)
        → get_elem? ((now, reference) ∷ docs) j ≡ some (later, doc)
        → structured_document the_chunk j ≡ ok (metrics_of_document doc)
    unfolding structured_document the_chunk hist
    samples j later doc e =
        let here : get_or ((now, reference) ∷ docs) j (now, reference) ≡ (later, doc) =
          get_or-some ((now, reference) ∷ docs) j (now, reference) e in
        let s =
          get_or-All (λ x. SameFields reference x.1) ((now, reference) ∷ docs) j (now, reference)
            h.schema h.schema.0 in
        let below = get_elem?-length ((now, reference) ∷ docs) j e in
        let holds =
          HoldsAt-series_of codec.float_sub hist filled (metric_for_document [] reference) j
            filled-Recorded (omega (arith, many)) in
        let these : hist j ≡ (extract_from_document later doc).values =
          ap (λ (x : ℕ × Document). (extract_from_document x.0 x.1).values) here in
        rw
          (restore_document-extract later j (series_of filled (metric_for_document [] reference))
            reference doc (rw here at s) (rw these at holds))
          refl

    -- For a collector without a reference and documents of one schema (integers, booleans, dates of
    -- the years 1678 to 2262, which are those of UnixNano; no doubles or timestamps) that the
    -- collector has room for, of fewer than 2 ^ 32 metrics, where the reference and the documents
    -- that Resolve writes are encodable (their bytes are fewer than 2 ^ 31, their keys and regular
    -- expressions have no zero byte, their numbers, object ids and subtypes are in the range of
    -- their Go types, and they hold no JavaScript with a scope), and zlib restores what it has
    -- compressed: every Add returns nil; Resolve returns bytes that ReadChunks reads, without an
    -- error, as one chunk with as many points as documents; and restoring point `j` of it gives the
    -- document that was added as number `j`, without the elements that hold no metric.
    pub samples_lem :
        IsEncodable reference
        → All IsEncodable (written_documents codec reference filled)
        → ((add_all codec.float_sub ((now, reference) ∷ docs) empty).1 ≡ none)
          × ((bytes : List ℕ) × (chunk : Chunk) × (resolve codec filled ≡ ok bytes)
              × (read_stream codec bytes ≡ (chunk ∷ [], []))
              × (chunk.n_points ≡ suc (length docs))
              × ((j later : ℕ) (doc : Document)
                  → get_elem? ((now, reference) ∷ docs) j ≡ some (later, doc)
                  → structured_document chunk j ≡ ok (metrics_of_document doc)))
    samples_lem enc docs_enc =
        let few : length (values_of filled.last_sample) < 2 ^ 32 =
          omega (arith, same_count, length-metric_for_document now reference, h.few) in
        let (bytes, done, read) =
          read_stream-resolve codec laws reference filled enc same_count few
            (omega (arith, many, h.short)) end_Follows.0.words set docs_enc in
        (
          ap (λ (o : Outcome BetterCollector). o.1) rest ∙ all-none,
          (
            bytes,
            the_chunk,
            done,
            (unfold the_chunk in read),
            (unfold the_chunk in omega (arith, many)),
            samples,
          ),
        )
