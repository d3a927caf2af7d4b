-- ===== src/Access/Memory/Invariant.antt =====
-- An invariant of the access store, about access/memory.go's limit on the uses of a key. A store
-- counts a key as known while it is stored or while a watcher holds it.
use secure_store.Access.{AKey}
use secure_store.Access.Memory.{MemoryStore, access, delete_key}
use secure_store.Access.Memory.Entries.{In, In-taken}
use secure_store.GoMap.{GoMap, get, get-remove, has, remove}
use secure_store.Prelude.{
  Bool-cases, List, Option, Option-cases, String, ap, arith, inl, inr, none, refl, some, subst, sym,
  true, ℕ, ◌++◌, ◌<◌, ◌∙◌, ◌∷◌, ◌≡◌, ◌≢◌, ◌≤◌, ◌⊎◌,
}
use secure_store.Prelude.Eq.{bytes_Eq, string_Eq}
use text.Mathlib.TextEquality.{eq_iff}

abbrev pub Known : MemoryStore → AKey → Type 0
Known s a = ((u : String) × (get u s.m ≡ some a)) ⊎ In a s.watchers

pub record Inv (s : MemoryStore) : Type 0 where
  -- A key is stored under its own url key.
  pub keyed : (u : String) (key : AKey) → get u s.m ≡ some key → key.url_key ≡ u
  -- The counter of a known key was handed out, to this key only.
  pub old : (a : AKey) → Known s a → (p : ℕ) × (a.used_times ≡ some p) × (p < s.heap.next_pointer)
  pub own : (a b : AKey) → Known s a → Known s b → a.used_times ≡ b.used_times → a ≡ b
  pub enforced :
      (u : String) (key : AKey) (p : ℕ)
      → get u s.m ≡ some key
      → key.used_times ≡ some p
      → key.limited ≡ true
      → key.limit ≤ s.heap.cells p
      → 0 < s.heap.cells p
      → In key s.kills

-- A step that adds no key and leaves the counters.
pub shrinks :
    (s s' : MemoryStore)
    → Inv s
    → ((u : String) (key : AKey) → get u s'.m ≡ some key → get u s.m ≡ some key)
    → ((a : AKey) → In a s'.watchers → Known s a)
    → s'.heap ≡ s.heap
    → ((u : String) (key : AKey) → get u s'.m ≡ some key → In key s.kills → In key s'.kills)
    → Inv s'
shrinks s s' h sub watch same kill = record {
  keyed = λ u key e. h.keyed u key (sub u key e);
  old = λ a k. rw same (h.old a (known a k));
  own = λ a b k l e. h.own a b (known a k) (known b l) e;
  enforced = λ u key p e q l m n.
      kill u key e (h.enforced u key p (sub u key e) q l (rw same at m) (rw same at n));
}
  where
    known : (a : AKey) → Known s' a → Known s a
    known a (inl (u, e)) = inl (u, sub u a e)
    known a (inr i) = watch a i

pub accesses-Inv : (s : MemoryStore) (url : String) → Inv s → Inv (access url s).1
unfolding access
accesses-Inv s url h = elim (Option-cases (get url s.m)) [
  | inl e ↦ rw (e, access) h
  | inr (key, e) ↦
      rw (e, access)
        (shrinks s (record s { watchers = key ∷ s.watchers }) h (λ u k x. x)
          (λ a i. elim i [
            | inl q ↦ inl (url, subst (λ x. get url s.m ≡ some x) q e)
            | inr j ↦ inr j
          ])
          refl (λ u k x i. i))
]

removed :
    (u v : String) (key : AKey) (m : GoMap String AKey)
    → get u (remove v m) ≡ some key
    → (get u m ≡ some key) × (v ≢ u)
removed u v key m e =
    (ground (arith, get-remove v u m), λ q. ground (arith, get-remove v u m, eq_iff v u))

pub deletes-Inv : (s : MemoryStore) (key : AKey) → Inv s → Inv (delete_key key s).1
unfolding delete_key
deletes-Inv s key h = elim (Bool-cases (has key.url_key s.m)) [
  | inl e ↦ rw e (
      shrinks s (record s { m = remove key.url_key s.m }) h
        (λ u k x. (removed u key.url_key k s.m x).0) (λ a i. inr i) refl (λ u k x i. i))
  | inr e ↦ rw e h
]

pub kills-Inv :
    (s : MemoryStore) (xs ys : List AKey) (key : AKey)
    → s.kills ≡ xs ++ (key ∷ ys)
    → Inv s
    → Inv (delete_key key (record s { kills = xs ++ ys })).1
unfolding delete_key has
kills-Inv s xs ys key q h = elim (Option-cases (get key.url_key s.m)) [
  | inl e ↦ rw e (
      shrinks s (record s { kills = xs ++ ys }) h (λ u k x. x) (λ a i. inr i) refl
        (λ u k x i. elim (taken k i) [
          | inl same ↦ absurd (none_some (gone u k x same e))
          | inr j ↦ j
        ]))
  | inr (old_key, e) ↦ rw e (
      shrinks s (record s { m = remove key.url_key s.m; kills = xs ++ ys }) h
        (λ u k x. (removed u key.url_key k s.m x).0) (λ a i. inr i) refl
        (λ u k x i. elim (taken k i) [
          | inl same ↦ absurd (
              (removed u key.url_key k s.m x).1 (
                ap (λ (a : AKey). a.url_key) same
                ∙ h.keyed u k ((removed u key.url_key k s.m x).0)))
          | inr j ↦ j
        ]))
]
  where
    taken : (k : AKey) → In k s.kills → (key ≡ k) ⊎ In k (xs ++ ys)
    taken k i = In-taken k key xs ys (subst (In k) q i)

    gone :
        (u : String) (k : AKey)
        → get u s.m ≡ some k
        → key ≡ k
        → get key.url_key s.m ≡ none
        → ◌≡◌ {A = Option AKey} none (some k)
    gone u k x same e =
        sym e ∙ ap (λ v. get v s.m) (ap (λ (a : AKey). a.url_key) same ∙ h.keyed u k x) ∙ x

    none_some : {k : AKey} → ¬ ◌≡◌ {A = Option AKey} none (some k)
    none_some e = cc
