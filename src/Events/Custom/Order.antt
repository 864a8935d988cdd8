-- ===== src/Events/Custom/Order.antt =====
-- That the sort of a Custom leaves nothing to the order of a Go map (events/custom.go).
use ftdc.Prelude.{
  ◌≡◌, ◌≢◌, refl, sym, ap, ◌∙◌, arith, true, false, not, ◌==◌, [], ◌∷◌, ◌++◌, Bool-cases, inl, inr,
}
use mathlib.Core.List.{Permᴰ}
use mathlib.Core.List.Permᴰ.{nil, cons, swap, trans}
use mathlib.Core.Path.{subst}
use ftdc.Word.{All}
use ftdc.Result.{ok}
use ftdc.Bson.{Text}
use ftdc.Events.Custom.{CustomPoint, Custom, text_less, less, insert, sort, set_bson}

-- What is not less than `ys` and less than `zs` has `ys` below `zs`.
text_less-between :
    (xs ys zs : Text) → text_less xs ys ≡ false → text_less xs zs ≡ true → text_less ys zs ≡ true
unfolding text_less
text_less-between [] [] zs h k = k
text_less-between [] (y ∷ ys) zs h k = cc
text_less-between (x ∷ xs) ys [] h k = cc
text_less-between (x ∷ xs) [] (z ∷ zs) h k = refl
text_less-between (x ∷ xs) (y ∷ ys) (z ∷ zs) h k = elim (Bool-cases (text_less xs ys)) [
  | inl a ↦ ground (arith, a)
  | inr a ↦ elim (Bool-cases (text_less xs zs)) [
    | inl b ↦ ground (arith, text_less-between xs ys zs a b)
    | inr b ↦ ground (arith, a, b)
  ]
]

text_less-not : (xs ys : Text) → xs ≢ ys → text_less ys xs ≡ not (text_less xs ys)
unfolding text_less
text_less-not [] [] ne = absurd (ne refl)
text_less-not [] (y ∷ ys) ne = refl
text_less-not (x ∷ xs) [] ne = refl
text_less-not (x ∷ xs) (y ∷ ys) ne = elim (Bool-cases (x == y)) [
  | inl e ↦
      (let q : x ≡ y = ground (arith, e) in ground (arith, text_less-not xs ys (λ tail. ne cc)))
  | inr e ↦ ground (arith, e)
]

insert-below :
    (x p : CustomPoint) (ps : Custom) → less x p ≡ true → insert p (x ∷ ps) ≡ x ∷ insert p ps
unfolding insert
insert-below x p ps e = rw (e) refl

insert-here : (x p : CustomPoint) (ps : Custom) → less x p ≡ false → insert p (x ∷ ps) ≡ p ∷ x ∷ ps
unfolding insert
insert-here x p ps e = rw (e) refl

less-between : (x p q : CustomPoint) → less x p ≡ false → less x q ≡ true → less p q ≡ true
unfolding less
less-between x p q = text_less-between x.name p.name q.name

less-not : (p q : CustomPoint) → p.name ≢ q.name → less q p ≡ not (less p q)
unfolding less
less-not p q = text_less-not p.name q.name

insert-commute-more :
    (p q x : CustomPoint) (ps : Custom)
    → p.name ≢ q.name
    → insert p (insert q ps) ≡ insert q (insert p ps)
    → insert p (insert q (x ∷ ps)) ≡ insert q (insert p (x ∷ ps))
insert-commute-more p q x ps ne ih = elim (Bool-cases (less x p)) [
  | inl a ↦ elim (Bool-cases (less x q)) [
    | inl b ↦
        rw
          (
            insert-below x q ps b,
            insert-below x p ps a,
            insert-below x p (insert q ps) a,
            insert-below x q (insert p ps) b,
          )
          (ap (λ rest. x ∷ rest) ih)
    | inr b ↦
        (let c : less q p ≡ true = less-between x q p b a in
          rw
            (
              insert-here x q ps b,
              insert-below q p (x ∷ ps) c,
              insert-below x p ps a,
              insert-here x q (insert p ps) b,
            )
            refl)
  ]
  | inr a ↦ elim (Bool-cases (less x q)) [
    | inl b ↦
        (let c : less p q ≡ true = less-between x p q a b in
          rw
            (
              insert-below x q ps b,
              insert-here x p ps a,
              insert-here x p (insert q ps) a,
              insert-below p q (x ∷ ps) c,
              insert-below x q ps b,
            )
            refl)
    | inr b ↦ elim (Bool-cases (less p q)) [
      | inl c ↦
          (let d : less q p ≡ false = less-not p q ne ∙ ap not c in
            rw
              (
                insert-here x q ps b,
                insert-here x p ps a,
                insert-here q p (x ∷ ps) d,
                insert-below p q (x ∷ ps) c,
                insert-here x q ps b,
              )
              refl)
      | inr c ↦
          (let d : less q p ≡ true = less-not p q ne ∙ ap not c in
            rw
              (
                insert-here x q ps b,
                insert-here x p ps a,
                insert-below q p (x ∷ ps) d,
                insert-here p q (x ∷ ps) c,
                insert-here x p ps a,
              )
              refl)
    ]
  ]
]

insert-commute :
    (p q : CustomPoint) (ps : Custom)
    → p.name ≢ q.name
    → insert p (insert q ps) ≡ insert q (insert p ps)
unfolding insert less
insert-commute p q [] ne = elim (Bool-cases (text_less p.name q.name)) [
  | inl e ↦
      (let e' : text_less q.name p.name ≡ false = text_less-not p.name q.name ne ∙ ap not e in
        rw (e, e') refl)
  | inr e ↦
      (let e' : text_less q.name p.name ≡ true = text_less-not p.name q.name ne ∙ ap not e in
        rw (e, e') refl)
]
insert-commute p q (x ∷ ps) ne = insert-commute-more p q x ps ne (insert-commute p q ps ne)

-- No two points have one name.
abbrev pub Distinct : Custom → Type 0
Distinct [] = Unit
Distinct (p ∷ ps) = All (λ q. p.name ≢ q.name) ps × Distinct ps

All-Perm : (P : CustomPoint → Type 0) {ps qs : Custom} → Permᴰ ps qs → All P ps → All P qs
All-Perm P nil h = h
All-Perm P (cons e d) h = (subst P e h.0, All-Perm P d h.1)
All-Perm P (swap e e') h = (subst P e' h.1.0, (subst P e h.0, h.1.1))
All-Perm P (trans d d') h = All-Perm P d' (All-Perm P d h)

Distinct-Perm : {ps qs : Custom} → Permᴰ ps qs → Distinct ps → Distinct qs
Distinct-Perm nil h = h
Distinct-Perm (cons {a} {b} {l₂ = l} e d) h = (
  subst (λ p. All (λ q. p.name ≢ q.name) l) e (All-Perm (λ q. a.name ≢ q.name) d h.0),
  Distinct-Perm d h.1,
)
Distinct-Perm (swap {a} {b} {a'} {l = l} e e') h =
    let swapped : Distinct (b ∷ a ∷ l) = ((λ q. h.0.0 (sym q), h.1.0), (h.0.1, h.1.1)) in
    subst (λ p. Distinct (a' ∷ p ∷ l)) e (subst (λ p. Distinct (p ∷ a ∷ l)) e' swapped)
Distinct-Perm (trans d d') h = Distinct-Perm d' (Distinct-Perm d h)

sort-Perm : {ps qs : Custom} → Permᴰ ps qs → Distinct ps → sort ps ≡ sort qs
unfolding sort
sort-Perm nil h = refl
sort-Perm (cons {a} {l₂ = l} e d) h =
    ap (insert a) (sort-Perm d h.1) ∙ ap (λ p. insert p (sort l)) e
sort-Perm (swap {a} {b} {a'} {l = l} e e') h =
    insert-commute a b (sort l) h.0.0
    ∙ ap (λ p. insert p (insert a (sort l))) e'
    ∙ ap (λ p. insert a' (insert p (sort l))) e
sort-Perm (trans d d') h = sort-Perm d h ∙ sort-Perm d' (Distinct-Perm d h)

sort-append : (ps qs rs : Custom) → sort qs ≡ sort rs → sort (ps ++ qs) ≡ sort (ps ++ rs)
unfolding sort
sort-append [] qs rs e = e
sort-append (p ∷ ps) qs rs e = ap (insert p) (sort-append ps qs rs e)

-- SetBSON gives the same points in whatever order Go goes over a map, the keys of which are
-- distinct.
pub set_bson-Perm :
    (entries entries' ps : Custom)
    → Permᴰ entries entries'
    → Distinct entries
    → set_bson (ok entries) ps ≡ set_bson (ok entries') ps
unfolding set_bson
set_bson-Perm entries entries' ps d h = ap ok (sort-append ps entries entries' (sort-Perm d h))
