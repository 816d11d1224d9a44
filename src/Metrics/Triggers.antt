-- ===== src/Metrics/Triggers.antt =====
-- The triggers that are kept.
use finops_proxy.Prelude.{
  ℕ, ◌+◌, ◌-◌, ◌≡◌, refl, sym, ap, ◌∙◌, arith, List, [], ◌∷◌, ◌++◌, reverse, length, last, drop,
  drop-append, drop-drop, append_assoc, append-nil, length-append, length-drop, lt→ltb,
  le→ltb_false, dec_lt,
}
use finops_proxy.Metrics.{TriggerEvent, trigger_cap, push, newest_first}

unfoldable pub push_all : List TriggerEvent → List TriggerEvent → List TriggerEvent
unfolding push
push_all [] ring = ring
push_all (ev ∷ evs) ring = push_all evs (push ev ring)

last_again : (n : ℕ) (xs ys : List TriggerEvent) → last n (last n xs ++ ys) ≡ last n (xs ++ ys)
last_again n xs ys =
    let d = length xs - n in
    let none_left : d - length xs ≡ 0 = omega arith in
    let joined : drop d xs ++ ys ≡ drop d (xs ++ ys) =
      sym (drop-append d xs ys ∙ ap (λ k. drop d xs ++ drop k ys) none_left) in
    let rest : d + (length (drop d (xs ++ ys)) - n) ≡ length (xs ++ ys) - n =
      omega (arith, length-drop d (xs ++ ys), length-append xs ys) in
    ap (last n) joined
    ∙ drop-drop (length (drop d (xs ++ ys)) - n) d (xs ++ ys)
    ∙ ap (λ k. drop k (xs ++ ys)) rest

push-last :
    (ev : TriggerEvent) (ring : List TriggerEvent)
    → push ev ring ≡ last trigger_cap (ring ++ (ev ∷ []))
unfolding push
push-last ev ring = elim (dec_lt trigger_cap (length (ring ++ (ev ∷ [])))) [
  | yes more ↦ rw (push, lt→ltb trigger_cap (length (ring ++ (ev ∷ []))) more) refl
  | no fits ↦
      let none_left : length (ring ++ (ev ∷ [])) - trigger_cap ≡ 0 = omega arith in
      rw (push, le→ltb_false (length (ring ++ (ev ∷ []))) trigger_cap (omega arith), none_left) refl
]

push_next :
    (ev : TriggerEvent) (all ring : List TriggerEvent)
    → ring ≡ last trigger_cap all
    → push ev ring ≡ last trigger_cap (all ++ (ev ∷ []))
push_next ev all ring h =
    push-last ev ring
    ∙ ap (λ r. last trigger_cap (r ++ (ev ∷ []))) h
    ∙ last_again trigger_cap all (ev ∷ [])

push_all-last :
    (evs all ring : List TriggerEvent)
    → ring ≡ last trigger_cap all
    → push_all evs ring ≡ last trigger_cap (all ++ evs)
unfolding push_all
push_all-last [] all ring h = h ∙ ap (last trigger_cap) (sym (append-nil all))
push_all-last (ev ∷ evs) all ring h =
    push_all-last evs (all ++ (ev ∷ [])) (push ev ring) (push_next ev all ring h)
    ∙ ap (last trigger_cap) (append_assoc all (ev ∷ []) evs)

-- The history of triggers has the last hundred of all that were pushed, newest first.
pub push_all-newest_first :
    (evs : List TriggerEvent) → newest_first (push_all evs []) ≡ reverse (last trigger_cap evs)
push_all-newest_first evs = ap newest_first (push_all-last evs [] [] refl)
