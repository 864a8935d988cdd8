-- ===== src/Tests/JsonStream.antt =====
-- CollectJSONStream at a concrete input: two documents, and the timer. The files are a list of their
-- names and bytes.
use ftdc.Prelude.{ℕ, ◌≡◌, ◌⊎◌, refl, List, [], ◌∷◌, Option, none, some, true, false}
use ftdc.Result.{Error}
use ftdc.Bson.{Text}
use ftdc.Codec.{Codec}
use ftdc.Input.{Outcome}
use ftdc.Collector.Dynamic.{new_dynamic_collector}
use ftdc.JsonStream.{
  CollectJsonOptions, Event, document_read, timer_fired, Collecting, validate, collect_json_stream,
}
use ftdc.JsonStream.Once.{leading, added, Saved, collect_json_stream_lem}
use ftdc.Tests.ToyCodec.{count_document, toy_codec, reference}

abbrev codec : Codec
codec = toy_codec

abbrev append_file : Text → List ℕ → List (Text × List ℕ) → Outcome (List (Text × List ℕ))
append_file name output files = ((name, output) ∷ files, none)

abbrev options : CollectJsonOptions
options = record {
  output_file_prefix = b'f' ∷ [];
  sample_count = 3;
  has_source = true;
  file_name = [];
  follow = false;
}

abbrev events : List Event
events = document_read 10 reference ∷ document_read 20 (count_document 9) ∷ timer_fired ∷ []

options-validate : validate options ≡ none
unfolding validate
options-validate = refl

collect_json_stream_lem_example :
    (t : Collecting (List (Text × List ℕ))) × (failure : Option Error) × (collect_json_stream codec
        append_file options events []
      ≡ some (t, failure))
    × (((e : Error) × (failure ≡ some e))
        ⊎ ((failure ≡ none)
            × Saved codec append_file options 0
                (added codec append_file (leading events) (new_dynamic_collector 3))
                []
                t.files))
collect_json_stream_lem_example =
    collect_json_stream_lem codec append_file options events [] options-validate refl
