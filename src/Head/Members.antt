-- ===== src/Head/Members.antt =====
-- The members of a comma-separated field value, apart from what is done with them.
use vakya.Prelude.{
  ℕ, ◌≡◌, refl, ap, ◌∙◌, inl, inr, Bool, false, ◌||◌, Option, none, some, List, [], ◌∷◌, ◌++◌,
  if◌then◌else◌, Bool-cases, Bytes, Result, ok, ◌>>=◌, >>=-eq-ok,
}
use vakya.Head.{
  HeadError, is_nil, MemberScan, splits, goes_on, scan_byte, members_loop, for_each_list_member,
}

abbrev onto {ℓ} : {A : Type ℓ} → A → Option (List A) → Option (List A)
onto m none = none
onto m (some ms) = some (m ∷ ms)

-- The members from inside one on, `none` where the list is malformed.
members_from : Bytes → (member : Bytes) → (quoted escaped : Bool) → Option (List Bytes)
members_from [] member quoted escaped =
    if quoted || escaped || is_nil member then none else some (member ∷ [])
members_from (b ∷ bs) member quoted escaped = elim (scan_byte quoted escaped b) [
  | goes_on q e ↦ members_from bs (member ++ (b ∷ [])) q e
  | splits ↦
      let rest = members_from bs [] quoted escaped in
      if is_nil member then none else onto member rest
]

-- The members of a whole value: the text between the commas that no quoted string holds, none of
-- it empty.
unfoldable pub members : Bytes → Option (List Bytes)
unfolding members_from
members value = members_from value [] false false

module _ {S : Type 0} (error : HeadError) (handle : Bytes → S → Result HeadError S) where
  abbrev pub folded : List Bytes → S → Result HeadError S
  folded [] s = ok s
  folded (m ∷ ms) s = handle m s >>= λ next. folded ms next

  -- A value that was handled without an error.
  pub record Handled (value : Option (List Bytes)) (s s' : S) : Type 0 where
    pub first : Bytes
    pub others : List Bytes
    pub listed : value ≡ some (first ∷ others)
    pub result : folded (first ∷ others) s ≡ ok s'

  one_more :
      (rest : Option (List Bytes)) (member : Bytes) (s next s' : S)
      → handle member s ≡ ok next
      → Handled rest next s'
      → Handled (onto member rest) s s'
  one_more rest member s next s' h handled = record {
    first = member;
    others = handled.first ∷ handled.others;
    listed = ap (onto member) handled.listed;
    result = ap (λ r. r >>= λ v. folded (handled.first ∷ handled.others) v) h ∙ handled.result;
  }

  step-Handled :
      (b : ℕ) (bs member : Bytes) (quoted escaped : Bool) (s s' : S) (scan : MemberScan)
      → scan_byte quoted escaped b ≡ scan
      → ((m : Bytes) (q e : Bool) (t : S)
          → members_loop error handle bs m q e t ≡ ok s'
          → Handled (members_from bs m q e) t s')
      → members_loop error handle (b ∷ bs) member quoted escaped s ≡ ok s'
      → Handled (members_from (b ∷ bs) member quoted escaped) s s'
  unfolding members_loop members_from
  step-Handled b bs member quoted escaped s s' (goes_on q e) same again h =
      rw (members_from, same) (again (member ++ (b ∷ [])) q e s (rw (members_loop, same) at h))
  step-Handled b bs member quoted escaped s s' splits same again h =
      elim (Bool-cases (is_nil member)) [
        | inl bad ↦ absurd (let k = rw (members_loop, same, bad) at h in cc)
        | inr good ↦
            let (next, first_ok, later) =
              >>=-eq-ok (handle member s) _ (rw (members_loop, same, good) at h) in
            rw (members_from, same, good)
              (one_more (members_from bs [] quoted escaped) member s next s' first_ok
                (again [] quoted escaped next later))
      ]

  loop-Handled :
      (bs member : Bytes) (quoted escaped : Bool) (s s' : S)
      → members_loop error handle bs member quoted escaped s ≡ ok s'
      → Handled (members_from bs member quoted escaped) s s'
  unfolding members_loop members_from
  loop-Handled [] member quoted escaped s s' h =
      elim (Bool-cases (quoted || escaped || is_nil member)) [
        | inl bad ↦ absurd (let k = rw bad at h in cc)
        | inr good ↦
            let done : handle member s ≡ ok s' = rw good at h in
            record { first = member; others = []; listed = rw good refl; result = rw done refl }
      ]
  loop-Handled (b ∷ bs) member quoted escaped s s' h =
      step-Handled b bs member quoted escaped s s' (scan_byte quoted escaped b) refl
        (λ m q e t. loop-Handled bs m q e t s') h

  pub value-Handled :
      (value : Bytes) (s s' : S)
      → for_each_list_member error handle value s ≡ ok s'
      → Handled (members value) s s'
  unfolding for_each_list_member members
  value-Handled value s s' h = loop-Handled value [] false false s s' h
