-- ===== src/Pipe/Spec.antt =====
-- What a pipe promises, apart from its code: a rendezvous that hands over one item at a time.
use vakya.Prelude.{
  ◌≡◌, refl, sym, ap, Bool, true, false, Option, none, some, List, [], ◌∷◌, ◌++◌, append-nil,
  append_assoc,
}

-- The item that is offered now, whether it was handed over, all items that were offered, how
-- each offer ended, `true` for an item that was handed over, and the items that were handed over.
pub record Rendezvous {ℓ} (T : Type ℓ) : Type ℓ where
  pub current : Option T
  pub passed : Bool
  pub offers : List T
  pub fates : List (T × Bool)
  pub taken : List T

module _ {ℓ} {T : Type ℓ} where
  -- An offer begins when there is none, its item is handed over once, and it ends as the item
  -- was handed over or not.
  pub data Step (r : Rendezvous T) : Rendezvous T → Type ℓ where
    stay : Step r r
    begin :
        (x : T)
        → r.current ≡ none
        → r.passed ≡ false
        → Step r (record r { current = some x; offers = r.offers ++ x ∷ [] })
    hand :
        (x : T)
        → r.current ≡ some x
        → r.passed ≡ false
        → Step r (record r { passed = true; taken = r.taken ++ x ∷ [] })
    settle :
        (x : T)
        → r.current ≡ some x
        → Step r
            (record r { current = none; passed = false; fates = r.fates ++ (x, r.passed) ∷ [] })

  abbrev pub ended : List (T × Bool) → List T
  ended [] = []
  ended ((x, passed) ∷ fates) = x ∷ ended fates

  abbrev pub only_if : Bool → T → List T
  only_if true x = x ∷ []
  only_if false x = []

  abbrev pub handed_over : List (T × Bool) → List T
  handed_over [] = []
  handed_over ((x, passed) ∷ fates) = only_if passed x ++ handed_over fates

  abbrev pub in_flight : Option T → Bool → List T
  in_flight none passed = []
  in_flight (some x) passed = only_if passed x

  abbrev pub listed : Option T → List T
  listed none = []
  listed (some x) = x ∷ []

  -- Every offer ended once, in its turn, but for the one of now; and the items that were handed
  -- over are those of the offers that ended so and of the one of now, in turn.
  pub record Holds (r : Rendezvous T) : Type ℓ where
    pub once : r.offers ≡ ended r.fates ++ listed r.current
    pub handed : r.taken ≡ handed_over r.fates ++ in_flight r.current r.passed

  ended-append : (fs gs : List (T × Bool)) → ended (fs ++ gs) ≡ ended fs ++ ended gs
  ended-append [] gs = refl
  ended-append ((x, p) ∷ fs) gs = ap (λ l. x ∷ l) (ended-append fs gs)

  handed_over-append :
      (fs gs : List (T × Bool)) → handed_over (fs ++ gs) ≡ handed_over fs ++ handed_over gs
  handed_over-append [] gs = refl
  handed_over-append ((x, p) ∷ fs) gs =
      rw (handed_over-append fs gs)
        (sym (append_assoc (only_if p x) (handed_over fs) (handed_over gs)))

  pub Step-Holds : {r s : Rendezvous T} → Step r s → Holds r → Holds s
  Step-Holds stay h = h
  Step-Holds {r} (begin x none_now fresh) h = record {
    once = simp (h.once, none_now, append-nil);
    handed = simp (h.handed, none_now, fresh);
  }
  Step-Holds {r} (hand x is_now fresh) h = record {
    once = h.once;
    handed = simp (h.handed, is_now, fresh, append-nil);
  }
  Step-Holds {r} (settle x is_now) h = record {
    once = simp (h.once, is_now, ended-append, append-nil);
    handed = simp (h.handed, is_now, handed_over-append, append-nil);
  }
