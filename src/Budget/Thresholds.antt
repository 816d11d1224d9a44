-- ===== src/Budget/Thresholds.antt =====
-- The thresholds of a monitor.
use finops_proxy.Prelude.{
  ℕ, ◌<◌, ◌≡◌, refl, sym, ap, ◌∙◌, arith, Option, none, some, Bool, true, false, ◌&&◌, ◌||◌, List,
  [], ◌∷◌, ◌++◌, ltb, leb, ◌==◌, ℤ, pos, negsuc, same, ite, Bool-cases, inl, inr,
}
use finops_proxy.GoMap.{Map, lookup, insert}
use finops_proxy.GoMap.Laws.{lookup-insert}
use finops_proxy.Budget.{
  number_eq, or_false, is_set, collect, insert_number, sort_numbers, sanitize_thresholds,
}

unfoldable pub member : ℕ → List ℕ → Bool
member p [] = false
member p (q ∷ qs) = let rest = member p qs in p == q || rest

-- a percentage among integers
unfoldable pub given_in : ℕ → List ℤ → Bool
given_in p [] = false
given_in p (negsuc n ∷ given) = given_in p given
given_in p (pos q ∷ given) = let rest = given_in p given in p == q || rest

abbrev pub Below : ℕ → List ℕ → Type 0
Below p [] = Unit
Below p (q ∷ qs) = p < q

abbrev pub IsAscending : List ℕ → Type 0
IsAscending [] = Unit
IsAscending (p ∷ ps) = Below p ps × IsAscending ps

abbrev pub IsDistinct : List ℕ → Type 0
IsDistinct [] = Unit
IsDistinct (p ∷ ps) = (member p ps ≡ false) × IsDistinct ps

member-insert_number :
    (k p : ℕ) (qs : List ℕ) → member k (insert_number p qs) ≡ (k == p || member k qs)
unfolding member insert_number
member-insert_number k p [] = refl
member-insert_number k p (q ∷ qs) = ground (arith, member-insert_number k p qs)

member-sort_numbers : (k : ℕ) (ps : List ℕ) → member k (sort_numbers ps) ≡ member k ps
unfolding member sort_numbers
member-sort_numbers k [] = refl
member-sort_numbers k (p ∷ ps) =
    member-insert_number k p (sort_numbers ps) ∙ ap (λ b. k == p || b) (member-sort_numbers k ps)

Below-insert_number : (q p : ℕ) (qs : List ℕ) → q < p → Below q qs → Below q (insert_number p qs)
unfolding insert_number
Below-insert_number q p [] h b = h
Below-insert_number q p (r ∷ qs) h b = ground arith

insert_number-IsAscending :
    (p : ℕ) (qs : List ℕ) → member p qs ≡ false → IsAscending qs → IsAscending (insert_number p qs)
unfolding insert_number member
insert_number-IsAscending p [] h a = (tt, tt)
insert_number-IsAscending p (q ∷ qs) h a = elim (Bool-cases (ltb q p)) [
  | inl e ↦ rw e (
    Below-insert_number q p qs (ground arith) a.0,
    insert_number-IsAscending p qs (ground arith) a.1,
  )
  | inr e ↦ rw e (ground arith, a)
]

sort_numbers-IsAscending : (ps : List ℕ) → IsDistinct ps → IsAscending (sort_numbers ps)
unfolding sort_numbers
sort_numbers-IsAscending [] h = tt
sort_numbers-IsAscending (p ∷ ps) h =
    insert_number-IsAscending p (sort_numbers ps) (member-sort_numbers p ps ∙ h.0)
      (sort_numbers-IsAscending ps h.1)

member-snoc : (k p : ℕ) (out : List ℕ) → member k (out ++ (p ∷ [])) ≡ (member k out || k == p)
unfolding member
member-snoc k p [] = ground arith
member-snoc k p (q ∷ out) = ground (arith, member-snoc k p out)

IsDistinct-snoc :
    (p : ℕ) (out : List ℕ) → member p out ≡ false → IsDistinct out → IsDistinct (out ++ (p ∷ []))
unfolding member
IsDistinct-snoc p [] h d = (refl, tt)
IsDistinct-snoc p (q ∷ out) h d =
    (ground (arith, member-snoc q p out), IsDistinct-snoc p out (ground arith) d.1)

-- the map of what was seen agrees with the list of what was kept
abbrev pub Agree : Map ℕ Bool → List ℕ → Type 0
Agree seen out = (k : ℕ) → is_set k seen ≡ member k out

set_cases :
    (k p : ℕ) (o : Option Bool) → or_false (ite (same p k) (some true) o) ≡ (or_false o || k == p)
set_cases k p none = ground arith
set_cases k p (some b) = ground arith

last_false : (a b c : Bool) → (a || b || c) ≡ false → c ≡ false
last_false a b c h = ground arith

pub is_set-insert :
    (k p : ℕ) (seen : Map ℕ Bool) → is_set k (insert p true seen) ≡ (is_set k seen || k == p)
unfolding is_set lookup
is_set-insert k p seen = ap or_false (lookup-insert p k true seen) ∙ set_cases k p (lookup k seen)

-- the loop of `sanitize_thresholds` skips a number
abbrev pub skips : Map ℕ Bool → ℕ → Bool
skips seen p = p == 0 || ltb 100 p || is_set p seen

Agree-insert :
    (p : ℕ) (seen : Map ℕ Bool) (out : List ℕ)
    → Agree seen out
    → Agree (insert p true seen) (out ++ (p ∷ []))
Agree-insert p seen out h k =
    is_set-insert k p seen ∙ ap (λ b. b || k == p) (h k) ∙ sym (member-snoc k p out)

collect-IsDistinct :
    (seen : Map ℕ Bool) (out : List ℕ) (given : List ℤ)
    → Agree seen out
    → IsDistinct out
    → IsDistinct (collect seen out given)
unfolding collect
collect-IsDistinct seen out [] h d = d
collect-IsDistinct seen out (negsuc n ∷ given) h d = collect-IsDistinct seen out given h d
collect-IsDistinct seen out (pos p ∷ given) h d = elim (Bool-cases (skips seen p)) [
  | inl e ↦ rw e (collect-IsDistinct seen out given h d)
  | inr e ↦
      let new : member p out ≡ false =
        sym (h p) ∙ last_false (p == 0) (ltb 100 p) (is_set p seen) e in
      rw e (
        collect-IsDistinct (insert p true seen) (out ++ (p ∷ [])) given (Agree-insert p seen out h)
          (IsDistinct-snoc p out new d))
]

-- a percentage that counts
abbrev pub in_range : ℕ → Bool
in_range p = ltb 0 p && leb p 100

member-collect :
    (k : ℕ) (seen : Map ℕ Bool) (out : List ℕ) (given : List ℤ)
    → Agree seen out
    → member k (collect seen out given) ≡ (member k out || (in_range k && given_in k given))
unfolding collect given_in
member-collect k seen out [] h = ground arith
member-collect k seen out (negsuc n ∷ given) h = member-collect k seen out given h
member-collect k seen out (pos p ∷ given) h = elim (Bool-cases (skips seen p)) [
  | inl e ↦ rw e (ground (arith, member-collect k seen out given h, h p, h k))
  | inr e ↦ rw e (
      ground (
        arith,
        member-collect k (insert p true seen) (out ++ (p ∷ [])) given (Agree-insert p seen out h),
        member-snoc k p out,
      ))
]

-- The thresholds of a monitor are ascending with none twice, and exactly those of the given
-- percentages that are from 1 to 100.
pub sanitize_thresholds-IsAscending :
    (given : List ℤ)
    → IsAscending (sanitize_thresholds given)
      × ((k : ℕ) → member k (sanitize_thresholds given) ≡ (in_range k && given_in k given))
unfolding sanitize_thresholds lookup member
sanitize_thresholds-IsAscending given = (
  sort_numbers-IsAscending (collect [] [] given) (collect-IsDistinct [] [] given (λ k. refl) tt),
  λ k. member-sort_numbers k (collect [] [] given) ∙ member-collect k [] [] given (λ j. refl),
)
