-- ===== src/DateRanges/Disjoint.antt =====
-- No two ranges of a type overlap (date_range/models/date_range.py, `_validate_range`).
use Prim.Native.String.{String}
use others_addons.Base.{
  ℕ, ◌≤◌, ◌<◌, ◌≡◌, ◌≢◌, refl, sym, ap, subst, ◌∙◌, ◌⊎◌, inl, inr, Bool, true, false, List, [], ◌∷◌,
  Option, none, some, arith, ◌==◌, ==_iff, ltb, ltb→lt, ltb→ge, Bool-cases, In,
}
use others_addons.DateRanges.{
  DateRange, same_company, is_overlap, find_overlap, Validation, valid, not_a_range, overlaps,
  found, validate_one, validate_range, without, save, settle, and_then,
}

find_overlap-none :
    (this : DateRange) (t : List DateRange)
    → find_overlap this t ≡ none
    → (dt : DateRange) → In dt t
    → is_overlap this dt ≡ false
unfolding find_overlap
find_overlap-none this [] h dt m = absurd m
find_overlap-none this (x ∷ t) h dt m = elim (Bool-cases (is_overlap this x)) [
  | inl clash ↦ let raised : some x ≡ none = rw clash at h in absurd (cc)
  | inr fine ↦ elim m [
    | inl e ↦ ap (is_overlap this) e ∙ fine
    | inr n ↦ find_overlap-none this t (rw fine at h) dt n
  ]
]

same_company_sym : (a b : Option ℕ) → same_company a b ≡ same_company b a
same_company_sym none none = refl
same_company_sym none (some b) = refl
same_company_sym (some a) none = refl
same_company_sym (some a) (some b) = ground (arith, ==_iff a b, ==_iff b a)

-- What the query does not find does not overlap.
ends_before :
    (this dt : DateRange)
    → is_overlap this dt ≡ false
    → dt.id ≢ this.id
    → same_company dt.company_id this.company_id ≡ true
    → dt.type_id ≡ this.type_id
    → dt.active ≡ true
    → (this.date_end < dt.date_start) ⊎ (dt.date_end < this.date_start)
unfolding is_overlap
ends_before this dt h id company type active = elim (Bool-cases (ltb this.date_end dt.date_start)) [
  | inl before ↦ inl (ltb→lt this.date_end dt.date_start before)
  | inr a ↦ elim (Bool-cases (ltb dt.date_end this.date_start)) [
    | inl after ↦ inr (ltb→lt dt.date_end this.date_start after)
    | inr b ↦ absurd (
        ground (
          arith,
          h,
          id,
          company,
          type,
          active,
          a,
          b,
          ==_iff dt.id this.id,
          ==_iff dt.type_id this.type_id,
        ))
  ]
]

found-none : (this : DateRange) (o : Option DateRange) → found this o ≡ valid → o ≡ none
found-none this none h = refl
found-none this (some dt) h = absurd (cc)

settle_cases :
    (stored t : List DateRange) (v : Validation)
    → ((v ≡ valid) × (settle stored t v ≡ (stored, valid)))
      ⊎ ((v ≢ valid) × (settle stored t v ≡ (t, v)))
settle_cases stored t valid = inl (refl, refl)
settle_cases stored t (not_a_range name date_start date_end) = inr ((λ e. cc), refl)
settle_cases stored t (overlaps name other) = inr ((λ e. cc), refl)

and_then_valid : (v rest : Validation) → and_then v rest ≡ valid → v ≡ valid
and_then_valid valid rest h = refl
and_then_valid (not_a_range name date_start date_end) rest h = h
and_then_valid (overlaps name other) rest h = h

module _ (allow_overlap : ℕ → Bool) where
  In-without : (id : ℕ) (t : List DateRange) (dt : DateRange) → In dt (without id t) → In dt t
  unfolding without
  In-without id [] dt m = m
  In-without id (x ∷ t) dt m = elim (Bool-cases (x.id == id)) [
    | inl same ↦ inr (In-without id t dt (rw same at m))
    | inr other ↦ elim (rw other at m) [ inl e ↦ inl e | inr n ↦ inr (In-without id t dt n) ]
  ]

  -- One range ends before the other starts, if the two are to be kept apart.
  abbrev pub IsApart : DateRange → DateRange → Type 0
  IsApart r s =
      r.id ≢ s.id
      → same_company r.company_id s.company_id ≡ true
      → r.type_id ≡ s.type_id
      → allow_overlap r.type_id ≡ false
      → r.active ≡ true
      → s.active ≡ true
      → (r.date_end < s.date_start) ⊎ (s.date_end < r.date_start)

  pub record IsDisjoint (t : List DateRange) : Type 0 where
    pub is_range : (r : DateRange) → In r t → r.date_start ≤ r.date_end
    pub apart : (r s : DateRange) → In r t → In s t → IsApart r s

  -- What a row that is valid satisfies.
  validate_one_valid :
      (t : List DateRange) (this : DateRange)
      → validate_one allow_overlap t this ≡ valid
      → (this.date_start ≤ this.date_end)
        × ((dt : DateRange) → In dt t → IsApart this dt × IsApart dt this)
  unfolding validate_one
  validate_one_valid t this h = elim (Bool-cases (ltb this.date_end this.date_start)) [
    | inl reversed ↦
        let raised : not_a_range this.name this.date_start this.date_end ≡ valid =
          rw reversed at h in
        absurd (cc)
    | inr ordered ↦ (
      ltb→ge this.date_end this.date_start ordered,
      elim (Bool-cases (allow_overlap this.type_id)) [
        | inl allowed ↦ λ dt m. (
          (λ i c type never a b. absurd (ground (arith, allowed, never))),
          (λ i c type never a b. absurd (ground (arith, allowed, ap allow_overlap type, never))),
        )
        | inr checked ↦
            let none_found : found this (find_overlap this t) ≡ valid =
              rw checked at (rw ordered at h) in
            λ dt m.
              let fine =
                find_overlap-none this t (found-none this (find_overlap this t) none_found) dt m in
              (
                (λ i c type never a b.
                    ends_before this dt fine (λ e. i (sym e))
                      (same_company_sym dt.company_id this.company_id ∙ c) (sym type) b),
                (λ i c type never a b. elim (ends_before this dt fine i c type a) [
                  | inl x ↦ inr x
                  | inr x ↦ inl x
                ]),
              )
      ],
    )
  ]

  stored-IsDisjoint :
      (this : DateRange) (t : List DateRange)
      → IsDisjoint t
      → this.date_start ≤ this.date_end
      → ((dt : DateRange) → In dt (this ∷ without this.id t) → IsApart this dt × IsApart dt this)
      → IsDisjoint (this ∷ without this.id t)
  stored-IsDisjoint this t d range apart = record {
    is_range = λ r m. elim m [
      | inl e ↦ subst (λ x. x.date_start ≤ x.date_end) (sym e) range
      | inr n ↦ d.is_range r (In-without this.id t r n)
    ];
    apart = λ r s m n. elim m [
      | inl e ↦ subst (λ x. IsApart x s) (sym e) (apart s n).0
      | inr m' ↦ elim n [
        | inl e ↦ subst (λ x. IsApart r x) (sym e) (apart r (inr m')).1
        | inr n' ↦ d.apart r s (In-without this.id t r m') (In-without this.id t s n')
      ]
    ];
  }

  -- The write changes at most the name of a stored range, or takes its `active` away.
  abbrev pub Hides : DateRange → List DateRange → Type 0
  Hides this t =
      (old : DateRange) × In old t
      × (this ≡ record old { name = this.name; active = this.active })
      × (this.active ≡ true → old.active ≡ true)

  hidden-IsApart :
      (old dt : DateRange) (name : String) (active : Bool)
      → (active ≡ true → old.active ≡ true)
      → IsApart old dt × IsApart dt old
      → (let this : DateRange = record old { name = name; active = active } in
          IsApart this dt × IsApart dt this)
  hidden-IsApart old dt name active hides (apart, trapa) = (
    λ i c type never a b. apart i c type never (hides a) b,
    λ i c type never a b. trapa i c type never a (hides b),
  )

  hidden-IsDisjoint :
      (old : DateRange) (t : List DateRange) (name : String) (active : Bool)
      → IsDisjoint t
      → In old t
      → (active ≡ true → old.active ≡ true)
      → IsDisjoint (record old { name = name; active = active } ∷ without old.id t)
  hidden-IsDisjoint old t name active d m hides =
      let this : DateRange = record old { name = name; active = active } in
      stored-IsDisjoint this t d (d.is_range old m) (λ dt n. elim n [
        | inl e ↦ (
          λ i c type never a b. absurd (i (ap (λ x. x.id) (sym e))),
          λ i c type never a b. absurd (i (ap (λ x. x.id) e)),
        )
        | inr n' ↦
            let k = In-without old.id t dt n' in
            hidden-IsApart old dt name active hides (d.apart old dt m k, d.apart dt old k m)
      ])

  saved-IsDisjoint :
      (this : DateRange) (t : List DateRange)
      → IsDisjoint t
      → (let r =
            settle
              (this ∷ without this.id t)
              t
              (validate_range allow_overlap (this ∷ without this.id t) (this ∷ [])) in
          IsDisjoint r.0 × ((r.1 ≡ valid) ⊎ ((r.1 ≢ valid) × (r.0 ≡ t))))
  unfolding validate_range
  saved-IsDisjoint this t d =
      let stored = this ∷ without this.id t in
      let v = validate_range allow_overlap stored (this ∷ []) in
      elim (settle_cases stored t v) [
        | inr (error, e) ↦ rw e (d, inr (error, refl))
        | inl (ok, e) ↦
            let (range, apart) =
              validate_one_valid stored this
                (and_then_valid (validate_one allow_overlap stored this) valid ok) in
            rw e (stored-IsDisjoint this t d range apart, inl refl)
      ]

  -- A create, a write of a field that the constraint names, or a write that changes at most the name of
  -- a range or archives it, keeps every range from its start to its end, and the active ranges of a type
  -- and company apart, if the type does not allow overlaps. It raises no error or changes nothing.
  pub save-IsDisjoint :
      (constrained : Bool) (this : DateRange) (t : List DateRange)
      → IsDisjoint t
      → (constrained ≡ true) ⊎ Hides this t
      → IsDisjoint (save allow_overlap constrained this t).0
        × (((save allow_overlap constrained this t).1 ≡ valid)
            ⊎ (((save allow_overlap constrained this t).1 ≢ valid)
                × ((save allow_overlap constrained this t).0 ≡ t)))
  unfolding save
  save-IsDisjoint true this t d allowed = saved-IsDisjoint this t d
  save-IsDisjoint false this t d (inl e) = absurd (ground (arith, e))
  save-IsDisjoint false this t d (inr (old, m, same, hides)) = (
    subst (λ x. IsDisjoint (x ∷ without x.id t)) (sym same)
        (hidden-IsDisjoint old t this.name this.active d m hides),
    inl refl,
  )

  same_company-none : (a : Option ℕ) → same_company a none ≡ false
  same_company-none none = refl
  same_company-none (some a) = refl

  no_company_overlap :
      (this : DateRange) (t : List DateRange) → this.company_id ≡ none → find_overlap this t ≡ none
  unfolding find_overlap is_overlap
  no_company_overlap this [] h = refl
  no_company_overlap this (dt ∷ t) h =
      let free : is_overlap this dt ≡ false =
        ground (arith, ap (same_company dt.company_id) h, same_company-none dt.company_id) in
      rw free (no_company_overlap this t h)

  -- A range without a company that goes from its start to its end is valid whatever ranges there
  -- are, also if its type does not allow overlaps.
  pub validate_no_company :
      (this : DateRange) (t : List DateRange)
      → this.company_id ≡ none
      → this.date_start ≤ this.date_end
      → validate_one allow_overlap t this ≡ valid
  unfolding validate_one
  validate_no_company this t h order =
      let unique = no_company_overlap this t h in
      elim (Bool-cases (ltb this.date_end this.date_start)) [
        | inl reversed ↦ absurd (ground (arith, reversed, order))
        | inr ordered ↦ elim (Bool-cases (allow_overlap this.type_id)) [
          | inl allowed ↦ rw ordered (rw allowed refl)
          | inr checked ↦ rw ordered (rw checked (ap (found this) unique))
        ]
      ]
