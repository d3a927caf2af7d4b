-- ===== src/Access/Memory/Limit.antt =====
-- The invariant over the states that a `MemoryStore` of access/memory.go and its goroutines can
-- reach.

use native.Mathlib.Decide.{dec_lt}
use secure_store.Access.{AKey, Heap, KeyOptions, new_access_key}
use secure_store.Access.Memory.{MemoryStore, add_key, new_memory_store}
use secure_store.Access.Memory.Answers.{answers-Inv}
use secure_store.Access.Memory.Entries.{In, In-kept}
use secure_store.Access.Memory.Invariant.{Inv, Known, accesses-Inv, deletes-Inv, kills-Inv, shrinks}
use secure_store.Access.Memory.Steps.{
  Reach, Step, accesses, adds, answers, deletes, fires, gives_up, here, kills, next, ticks,
}
use secure_store.GoMap.{GoMap, get, get-put, has, put}
use secure_store.Prelude.{
  Bool-cases, List, String, [], ap, arith, inl, inr, refl, some, subst, suc, sym, true, ℕ, ◌<◌, ◌∙◌,
  ◌≡◌, ◌≢◌, ◌≤◌, ◌⊎◌,
}
use secure_store.Prelude.Eq.{bytes_Eq, string_Eq, ◌==◌}
use text.Mathlib.TextEquality.{eq_iff}

module _ (s : MemoryStore) (bucket_id key_id url : String) (options : KeyOptions) (h : Inv s) where
  abbrev made : AKey × Heap
  made = new_access_key bucket_id key_id url options s.heap

  abbrev fresh : MemoryStore
  fresh = record s { heap = made.1 }

  below_other : (p : ℕ) → p < s.heap.next_pointer → made.1.cells p ≡ s.heap.cells p
  unfolding new_access_key
  below_other p b = ground arith

  made_pointer : made.0.used_times ≡ some s.heap.next_pointer
  unfolding new_access_key
  made_pointer = refl

  made_next : made.1.next_pointer ≡ suc s.heap.next_pointer
  unfolding new_access_key
  made_next = refl

  made_cell : made.1.cells s.heap.next_pointer ≡ 0
  unfolding new_access_key
  made_cell = ground arith

  made_url : made.0.url_key ≡ url
  unfolding new_access_key
  made_url = refl

  Known-cell :
      (a : AKey) (p : ℕ) → Known s a → a.used_times ≡ some p → made.1.cells p ≡ s.heap.cells p
  Known-cell a p k e =
      let (r, is_r, b) = h.old a k in
      let same : r ≡ p = cc in subst (λ x. made.1.cells x ≡ s.heap.cells x) same (below_other r b)

  -- The key, if it was added, and the keys known before.
  abbrev Grown : AKey → Type 0
  Grown a = (a ≡ made.0) ⊎ Known s a

  Grown-old : (a : AKey) → Grown a → (p : ℕ) × (a.used_times ≡ some p) × (p < made.1.next_pointer)
  Grown-old a (inl e) = (
    s.heap.next_pointer,
    ap (λ (k : AKey). k.used_times) e ∙ made_pointer,
    omega (arith, made_next),
  )
  Grown-old a (inr k) = let (p, e, b) = h.old a k in (p, e, omega (arith, made_next))

  -- The counter of the new key is not that of a known one.
  apart : (a b : AKey) → a ≡ made.0 → Known s b → a.used_times ≢ b.used_times
  apart a b e k q =
      let (p, is_p, below) = h.old b k in
      let same : s.heap.next_pointer ≡ p = cc (made_pointer, ap (λ (x : AKey). x.used_times) e) in
      omega arith

  Grown-own : (a b : AKey) → Grown a → Grown b → a.used_times ≡ b.used_times → a ≡ b
  Grown-own a b (inl e) (inl f) q = e ∙ sym f
  Grown-own a b (inl e) (inr l) q = absurd (apart a b e l q)
  Grown-own a b (inr k) (inl f) q = absurd (apart b a f k (sym q))
  Grown-own a b (inr k) (inr l) q = h.own a b k l q

  -- A store that holds keys of these, on the new heap.
  grown-Inv :
      (m : GoMap String AKey) (timers : List AKey)
      → ((u : String) (a : AKey)
          → get u m ≡ some a
          → ((a ≡ made.0) × (url ≡ u)) ⊎ (get u s.m ≡ some a))
      → Inv (record s { m = m; heap = made.1; timers = timers })
  grown-Inv m timers from = record {
    keyed = λ u a e. elim (from u a e) [
      | inl (f, g) ↦ ap (λ (k : AKey). k.url_key) f ∙ made_url ∙ g
      | inr f ↦ h.keyed u a f
    ];
    old = λ a k. Grown-old a (grown a k);
    own = λ a b k l e. Grown-own a b (grown a k) (grown b l) e;
    enforced = λ u a p e q lim le nonzero. elim (from u a e) [
      | inl (f, g) ↦
          let same : s.heap.next_pointer ≡ p =
            cc (made_pointer, ap (λ (x : AKey). x.used_times) f, q) in
          absurd (lt_self (rw made_cell at (subst (λ x. 0 < made.1.cells x) (sym same) nonzero)))
      | inr f ↦
          let cell = Known-cell a p (inl (u, f)) q in
          h.enforced u a p f q lim (subst (λ v. a.limit ≤ v) cell le)
            (subst (λ v. 0 < v) cell nonzero)
    ];
  }
    where
      lt_self : ¬ (0 < 0)
      lt_self b = omega arith

      grown : (a : AKey) → Known (record s { m = m; heap = made.1; timers = timers }) a → Grown a
      grown a (inl (u, e)) = elim (from u a e) [ inl (f, g) ↦ inl f | inr f ↦ inr (inl (u, f)) ]
      grown a (inr i) = inr (inr i)

  put_from :
      (u : String) (a : AKey)
      → get u (put url made.0 s.m) ≡ some a
      → ((a ≡ made.0) × (url ≡ u)) ⊎ (get u s.m ≡ some a)
  put_from u a e = elim (Bool-cases (url == u)) [
    | inl t ↦ inl (ground (arith, get-put url u made.0 s.m), (eq_iff url u).0 t)
    | inr f ↦ inr (ground (arith, get-put url u made.0 s.m))
  ]

  adds-Inv : Inv (add_key made.0 (record s { heap = made.1 })).1
  unfolding add_key
  adds-Inv = rw made_url (elim (Bool-cases (has url s.m)) [
    | inl e ↦ rw e (grown-Inv s.m s.timers (λ u a x. inr x))
    | inr e ↦ rw e (grown-Inv (put url made.0 s.m) _ put_from)
  ])

Step-Inv : {s t : MemoryStore} → Step s t → Inv s → Inv t
Step-Inv {s} (adds b k url options) h = adds-Inv s b k url options h
Step-Inv {s} (accesses url) h = accesses-Inv s url h
Step-Inv {s} (deletes key) h = deletes-Inv s key h
Step-Inv {s} (answers xs ys key resp q) h = answers-Inv s xs ys key resp q h
Step-Inv {s} (gives_up xs ys key q) h =
    shrinks s _ h (λ u k x. x) (λ a i. inr (subst (In a) (sym q) (In-kept a key xs ys i))) refl
      (λ u k x i. i)
Step-Inv {s} (kills xs ys key q) h = kills-Inv s xs ys key q h
Step-Inv {s} (fires xs ys key ttl q e le) h =
    shrinks s _ h (λ u k x. x) (λ a i. inr i) refl (λ u k x i. inr i)
Step-Inv {s} (ticks n) h = shrinks s _ h (λ u k x. x) (λ a i. inr i) refl (λ u k x i. i)

Reach-Inv : {s t : MemoryStore} → Reach s t → Inv s → Inv t
Reach-Inv here h = h
Reach-Inv (next r st) h = Step-Inv st (Reach-Inv r h)

new_memory_store-Inv : (g : Heap) (now : ℕ) → Inv (new_memory_store g now)
unfolding new_memory_store get
new_memory_store-Inv g now = record {
  keyed = λ u a e. cc;
  old = λ a k. elim k [ inl (u, e) ↦ cc | inr i ↦ absurd i ];
  own = λ a b k l e. elim k [ inl (u, f) ↦ cc | inr i ↦ absurd i ];
  enforced = λ u a p e q lim le nonzero. cc;
}

-- In every state that a new access store can reach, in whatever order calls, answers,
-- cancellations, kills, timers and ticks of the clock come: if no key waits for the killer, then
-- a stored limited key whose counter is above zero has been used less often than its limit.
pub limit_enforced :
    (g : Heap) (now : ℕ) (s : MemoryStore) (url : String) (key : AKey) (p : ℕ)
    → Reach (new_memory_store g now) s
    → s.kills ≡ []
    → get url s.m ≡ some key
    → key.used_times ≡ some p
    → key.limited ≡ true
    → 0 < s.heap.cells p
    → s.heap.cells p < key.limit
limit_enforced g now s url key p r drained e q lim nonzero =
    elim (dec_lt (s.heap.cells p) key.limit) [
      | yes b ↦ b
      | no n ↦ absurd (
          subst (In key) drained (
            (Reach-Inv r (new_memory_store-Inv g now)).enforced url key p e q lim (omega arith)
              nonzero))
    ]
