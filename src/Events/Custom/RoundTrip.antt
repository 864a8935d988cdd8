-- ===== src/Events/Custom/RoundTrip.antt =====
-- What UnmarshalBSON reads of the bytes of MarshalBSON (events/custom.go).
use ftdc.Bson.Encode.{document_bytes}
use ftdc.Bson.Decode.RoundTrip.{
  IsEncodable, marshal_bson-IsEncodable, unmarshal_bson-document_bytes,
}
use ftdc.Prelude.{
  ℕ, ◌≡◌, refl, sym, ap, ◌∙◌, [], ◌∷◌, ◌++◌, map, List, true, false, Bool-cases, inl, inr, arith,
}
use mathlib.Core.List.{append-nil, append_assoc}
use ftdc.Result.{ok}
use ftdc.Bson.{Text, Value}
use ftdc.Events.Custom.{
  CustomPoint, Custom, text_less, less, insert, sort, interface_value, value_interface,
  custom_document, marshal_bson, append_elements, unmarshal_bson,
}

-- No point is less than the one before it.
abbrev pub Ordered : Custom → Type 0
Ordered [] = Unit
Ordered (p ∷ []) = Unit
Ordered (p ∷ (q ∷ qs)) = (less q p ≡ false) × Ordered (q ∷ qs)

text_less-asym : (xs ys : Text) → text_less xs ys ≡ true → text_less ys xs ≡ false
unfolding text_less
text_less-asym [] [] h = cc
text_less-asym [] (y ∷ ys) h = refl
text_less-asym (x ∷ xs) [] h = cc
text_less-asym (x ∷ xs) (y ∷ ys) h = elim (Bool-cases (text_less xs ys)) [
  | inl e ↦ ground (arith, h, text_less-asym xs ys e)
  | inr e ↦ ground (arith, h, e)
]

less-asym : (p q : CustomPoint) → less p q ≡ true → less q p ≡ false
unfolding less
less-asym p q = text_less-asym p.name q.name

insert-Ordered : (p : CustomPoint) (ps : Custom) → Ordered ps → Ordered (insert p ps)
unfolding insert
insert-Ordered p [] h = tt
insert-Ordered p (q ∷ []) h = elim (Bool-cases (less q p)) [
  | inl e ↦ rw (e) (less-asym q p e, tt)
  | inr e ↦ rw (e) (e, tt)
]
insert-Ordered p (q ∷ (r ∷ rs)) h = elim (Bool-cases (less q p)) [
  | inr e ↦ rw (e) (e, h)
  | inl e ↦
      let ih = insert-Ordered p (r ∷ rs) h.1 in
      elim (Bool-cases (less r p)) [
        | inl f ↦ rw (e, f) (h.0, rw f at ih)
        | inr f ↦ rw (e, f) (less-asym q p e, rw f at ih)
      ]
]

sort-Ordered : (ps : Custom) → Ordered (sort ps)
unfolding sort
sort-Ordered [] = tt
sort-Ordered (p ∷ ps) = insert-Ordered p (sort ps) (sort-Ordered ps)

module _ (widen : ℕ → ℕ) (of_exported : Value → Value) where
  -- A point behind a round trip of its value through BSON.
  unfoldable pub again : CustomPoint → CustomPoint
  unfolding interface_value value_interface
  again p = record {
    name = p.name;
    value = value_interface (interface_value widen of_exported p.value);
  }

  append_elements-custom_document :
      (ps qs : Custom)
      → append_elements (custom_document widen of_exported ps) qs ≡ qs ++ map again ps
  unfolding append_elements custom_document again
  append_elements-custom_document [] qs = sym (append-nil qs)
  append_elements-custom_document (p ∷ ps) qs =
      append_elements-custom_document ps (qs ++ (again p ∷ []))
      ∙ append_assoc qs (again p ∷ []) (map again ps)

  -- MarshalBSON of points returns bytes, and UnmarshalBSON of these appends the sorted points to
  -- those that are there, each value as EC.Interface and Value.Interface leave it; no sorted point
  -- has a lesser name than the one before it. The document of the sorted points is one whose bytes
  -- are fewer than 2 ^ 31, whose keys and regular expressions have no zero byte, whose numbers,
  -- object ids and subtypes are in the range of their Go types, and which hold no JavaScript with a
  -- scope.
  pub unmarshal_bson-marshal_bson :
      (ps qs : Custom)
      → IsEncodable (custom_document widen of_exported (sort ps))
      → (bytes : List ℕ) × ((marshal_bson widen of_exported ps).0 ≡ ok bytes)
        × (unmarshal_bson bytes qs ≡ ok (qs ++ map again (sort ps)))
        × Ordered (sort ps)
  unfolding unmarshal_bson marshal_bson
  unmarshal_bson-marshal_bson ps qs h =
      let doc = custom_document widen of_exported (sort ps) in
      (
        document_bytes doc,
        marshal_bson-IsEncodable doc h,
        rw (unmarshal_bson-document_bytes doc h)
            (ap ok (append_elements-custom_document (sort ps) qs)),
        sort-Ordered ps,
      )
