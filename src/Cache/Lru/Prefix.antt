-- ===== src/Cache/Lru/Prefix.antt =====
-- `deletePrefix`: the loop over the keys, as one filter of the entries.
use text.Mathlib.Text.{starts_with}
use expertos.Common.{
  ℕ, ◌+◌, ◌≡◌, Bool, true, false, not, List, [], ◌∷◌, String, arith, length, keep, Bool-cases, inl,
  inr, ap, ◌∙◌, sym, subst, ◌++◌, append_assoc,
}
use expertos.Cache.Lru.{
  LruCache, Entry, map_delete, keys, delete, delete_prefix, delete_prefix_from,
}
use expertos.Cache.Lru.Store.{Distinct, map_delete_middle}

module _ {V : Type 0} where
  abbrev pub starts : String → String × Entry V → Bool
  starts prefix e = starts_with e.0 prefix

  step_prefixed :
      (prefix k : String) (ks : List String) (n : ℕ) (c : LruCache V)
      → starts_with k prefix ≡ true
      → delete_prefix_from prefix (k ∷ ks) n c
        ≡ delete_prefix_from prefix ks (n + 1) (record c { store = map_delete k c.store })
  unfolding delete_prefix_from delete
  step_prefixed prefix k ks n c h = rw h

  step_other :
      (prefix k : String) (ks : List String) (n : ℕ) (c : LruCache V)
      → starts_with k prefix ≡ false
      → delete_prefix_from prefix (k ∷ ks) n c ≡ delete_prefix_from prefix ks n c
  unfolding delete_prefix_from
  step_other prefix k ks n c h = rw h

  -- Deleting the prefixed keys of `todo`, which stand behind the entries that were kept.
  delete_from :
      (prefix : String) (todo done : List (String × Entry V)) (n : ℕ) (c : LruCache V)
      → Distinct (done ++ todo)
      → delete_prefix_from prefix (keys todo) n (record c { store = done ++ todo }) ≡ (
        n + length (keep (starts prefix) todo),
        record c { store = done ++ keep (λ e. not (starts prefix e)) todo },
      )
  unfolding delete_prefix_from
  delete_from prefix [] done n c d =
      ap (λ (x : ℕ). (x, record c { store = done ++ [] })) (omega arith)
  delete_from prefix ((k, v) ∷ todo) done n c d =
      let kept = keep (λ e. not (starts prefix e)) todo in
      elim (Bool-cases (starts_with k prefix)) [
        | inl prefixed ↦
            let (gone, d') = map_delete_middle k v done todo d in
            step_prefixed prefix k (keys todo) n (record c { store = done ++ (k, v) ∷ todo })
              prefixed
            ∙ ap (λ m. delete_prefix_from prefix (keys todo) (n + 1) (record c { store = m })) gone
            ∙ delete_from prefix todo done (n + 1) c d'
            ∙ rw prefixed (ap (λ (x : ℕ). (x, record c { store = done ++ kept })) (omega arith))
        | inr other ↦
            let shift = append_assoc done ((k, v) ∷ []) todo in
            step_other prefix k (keys todo) n (record c { store = done ++ (k, v) ∷ todo }) other
            ∙ ap (λ m. delete_prefix_from prefix (keys todo) n (record c { store = m })) (sym shift)
            ∙ delete_from prefix todo (done ++ (k, v) ∷ []) n c (subst Distinct (sym shift) d)
            ∙ rw other (
                ap (λ m. (n + length (keep (starts prefix) todo), record c { store = m }))
                  (append_assoc done ((k, v) ∷ []) kept))
      ]

  -- On a map with distinct keys it returns the number of the keys that have the prefix, and keeps
  -- exactly the entries whose key has not, in their order.
  pub delete_prefix_lem :
      (prefix : String) (c : LruCache V)
      → Distinct c.store
      → delete_prefix prefix c ≡ (
        length (keep (starts prefix) c.store),
        record c { store = keep (λ e. not (starts prefix e)) c.store },
      )
  unfolding delete_prefix
  delete_prefix_lem prefix c d =
      delete_from prefix c.store [] 0 c d
      ∙ ap (λ (x : ℕ). (x, record c { store = keep (λ e. not (starts prefix e)) c.store }))
          (omega arith)
