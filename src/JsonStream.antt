-- ===== src/JsonStream.antt =====
-- json.go: the loop of CollectJSONStream, which collects the documents of a source into files. What
-- its `select` receives is a list of events: the goroutine that reads the source and the timer send
-- them, in any order. A write of a file is a function on a state `F`.
pub mod Once
use ftdc.Prelude.{
  ℕ, zero, ◌+◌, Bool, true, false, not, ◌&&◌, ◌||◌, ◌==◌, if◌then◌else◌, List, [], ◌∷◌, ◌++◌,
  Option, none, some,
}
use ftdc.Result.{Error, Result, ok, err, eof, aborted, bad_source, bad_follow}
use ftdc.Bson.{Text, Document}
use ftdc.Codec.{Codec}
use ftdc.Input.{Outcome}
use ftdc.Metrics.Key.{decimal}
use ftdc.Collector.Dynamic
use ftdc.Collector.Dynamic.{DynamicCollector, new_dynamic_collector, is_empty}

-- The options, less the interval of the timer; `has_source` is `InputSource != nil`.
pub record CollectJsonOptions : Type 0 where
  pub output_file_prefix : Text
  pub sample_count : ℕ
  pub has_source : Bool
  pub file_name : Text
  pub follow : Bool

unfoldable pub validate : CollectJsonOptions → Option Error
validate opts =
    let both_specified = not opts.has_source && is_empty opts.file_name in
    let neither_specified = opts.has_source && not (is_empty opts.file_name) in
    if both_specified || neither_specified
    then some bad_source
    else if opts.follow && is_empty opts.file_name
    then some bad_follow
    else none

-- What the `select` receives: the end of the context, a value of `errs`, which is nil when the channel
-- is closed, a document with the clock's reading, and the timer.
pub data Event : Type 0 where
  canceled : Event
  source_error : Option Error → Event
  document_read : ℕ → Document → Event
  timer_fired : Event

-- The variables of CollectJSONStream, and the files.
pub record Collecting (F : Type 0) : Type 0 where
  pub output_count : ℕ
  pub collector : DynamicCollector
  pub files : F

-- `errors.Cause(err) == io.EOF`
abbrev pub is_eof : Error → Bool
is_eof eof = true
is_eof _ = false

-- `fmt.Sprintf("%s.%d", opts.OutputFilePrefix, outputCount)`
unfoldable pub output_file : CollectJsonOptions → ℕ → Text
output_file opts n = opts.output_file_prefix ++ (46 ∷ decimal n)

-- What flusher does behind WriteFile.
unfoldable pub after_write_file : {F : Type 0} → Collecting F → Outcome F → Outcome (Collecting F)
after_write_file s (files, some e) = (record s { files = files }, some e)
after_write_file s (files, none) = (
  record {
    output_count = s.output_count + 1;
    collector = Dynamic.reset s.collector;
    files = files;
  },
  none,
)

module _ {F : Type 0} (codec : Codec) (write_file : Text → List ℕ → F → Outcome F) where
  -- What flusher does with what Resolve returns.
  unfoldable pub save : CollectJsonOptions → Collecting F → Result (List ℕ) → Outcome (Collecting F)
  unfolding output_file after_write_file
  save opts s (err e) = (s, some e)
  save opts s (ok output) =
      after_write_file s (write_file (output_file opts s.output_count) output s.files)

  unfoldable pub flusher : CollectJsonOptions → Collecting F → Outcome (Collecting F)
  unfolding save
  flusher opts s =
      if (Dynamic.info s.collector).sample_count == 0
      then (s, none)
      else save opts s (Dynamic.resolve codec s.collector)

  -- The loop, and its variables when it returns; none where it waits for a further event.
  unfoldable pub collect :
      CollectJsonOptions → List Event → Collecting F → Option (Outcome (Collecting F))
  unfolding flusher
  collect opts [] s = none
  collect opts (canceled ∷ events) s = some (s, some aborted)
  collect opts (source_error none ∷ events) s = some (flusher opts s)
  collect opts (source_error (some e) ∷ events) s =
      some (if is_eof e then flusher opts s else (s, some e))
  collect opts (document_read now doc ∷ events) s =
      let (c, e) = Dynamic.add codec now doc s.collector in
      let s' = record s { collector = c } in
      let rest = collect opts events s' in elim e [ some x ↦ some (s', some x) | none ↦ rest ]
  collect opts (timer_fired ∷ events) s = some (flusher opts s)

  -- CollectJSONStream
  unfoldable pub collect_json_stream :
      CollectJsonOptions → List Event → F → Option (Outcome (Collecting F))
  unfolding validate collect
  collect_json_stream opts events files =
      let s : Collecting F = record {
        output_count = 0;
        collector = new_dynamic_collector opts.sample_count;
        files = files;
      } in
      elim (validate opts) [ some e ↦ some (s, some e) | none ↦ collect opts events s ]
