-- ===== src/Access/Memory/Answers.antt =====
-- The invariant of the access store across the answer to a watcher.
use native.Mathlib.Decide.{ℕ_discrete}
use secure_store.Access.{AKey, Heap}
use secure_store.Access.Memory.{MemoryStore, answered, increment}
use secure_store.Access.Memory.Entries.{In, In-kept, In-middle}
use secure_store.Access.Memory.Invariant.{Inv, Known}
use secure_store.Prelude.{
  Bool, Bool-cases, List, ap, arith, false, if◌then◌else◌, inl, inr, leb, nat_eq_iff, refl, some,
  subst, sym, true, ℕ, ◌&&◌, ◌++◌, ◌∙◌, ◌∷◌, ◌≡◌, ◌≢◌, ◌≤◌,
}

-- A watcher held `key`, whose counter is `p`; all other counters stay.
module _ (s : MemoryStore) (xs ys : List AKey) (key : AKey) (q : s.watchers ≡ xs ++ (key ∷ ys))
    (h : Inv s) (p : ℕ) (is_p : key.used_times ≡ some p) where
  abbrev queued : Heap → List AKey
  queued g = if leb key.limit (g.cells p) && key.limited then key ∷ s.kills else s.kills

  queued_still : (g : Heap) (k : AKey) → In k s.kills → In k (queued g)
  queued_still g k i = elim (Bool-cases (leb key.limit (g.cells p) && key.limited)) [
    | inl e ↦ rw e (inr i)
    | inr e ↦ rw e i
  ]

  queued_now :
      (g : Heap) (k : AKey) → key ≡ k → k.limited ≡ true → k.limit ≤ g.cells p → In k (queued g)
  queued_now g k same lim le =
      let e : (leb key.limit (g.cells p) && key.limited) ≡ true = ground arith in rw e (inl same)

  watched : (a : AKey) → In a (xs ++ ys) → Known s a
  watched a i = inr (subst (In a) (sym q) (In-kept a key xs ys i))

  answered-Inv :
      (g : Heap)
      → g.next_pointer ≡ s.heap.next_pointer
      → ((r : ℕ) → r ≢ p → g.cells r ≡ s.heap.cells r)
      → Inv (record s { heap = g; watchers = xs ++ ys; kills = queued g })
  answered-Inv g same others = record {
    keyed = h.keyed;
    old = λ a k. rw same (h.old a (known a k));
    own = λ a b k l e. h.own a b (known a k) (known b l) e;
    enforced = λ u k r x used lim le pos. elim (ℕ_discrete r p) [
      | yes e ↦
          queued_now g k
            (h.own key k (inr (subst (In key) (sym q) (In-middle key xs ys))) (inl (u, x))
              (is_p ∙ sym (used ∙ ap some e)))
            lim (subst (λ v. k.limit ≤ g.cells v) e le)
      | no n ↦
          queued_still g k
            (h.enforced u k r x used lim (rw (others r n) at le) (rw (others r n) at pos))
    ];
  }
    where
      known :
          (a : AKey)
          → Known (record s { heap = g; watchers = xs ++ ys; kills = queued g }) a
          → Known s a
      known a (inl (u, e)) = inl (u, e)
      known a (inr i) = watched a i

  increment_others : (r : ℕ) → r ≢ p → (increment p s.heap).cells r ≡ s.heap.cells r
  unfolding increment
  increment_others r n = ground (arith, nat_eq_iff r p)

pub answers-Inv :
    (s : MemoryStore) (xs ys : List AKey) (key : AKey) (resp : Bool)
    → s.watchers ≡ xs ++ (key ∷ ys)
    → Inv s
    → Inv (answered key resp (record s { watchers = xs ++ ys })).1
unfolding answered
answers-Inv s xs ys key resp q h =
    let (p, is_p, below) = h.old key (inr (rw q (In-middle key xs ys))) in
    rw (is_p, answered)
      (elim resp
        as (λ b. Inv (record s {
          heap = if b then increment p s.heap else s.heap;
          watchers = xs ++ ys;
          kills = queued s xs ys key q h p is_p (if b then increment p s.heap else s.heap);
        })) [
          | true ↦
              answered-Inv s xs ys key q h p is_p (increment p s.heap) refl
                (increment_others s xs ys key q h p is_p)
          | false ↦ answered-Inv s xs ys key q h p is_p s.heap refl (λ r n. refl)
        ])
