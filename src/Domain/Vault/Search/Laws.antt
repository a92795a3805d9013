-- ===== src/Domain/Vault/Search/Laws.antt =====
-- The page size of a search.
use canterbury.Base.{zero, suc, ◌≤◌, ◌≡◌, refl, arith}
use canterbury.Base.Int.{ℤ, pos, negsuc, ◌≤ℤ◌}
use canterbury.Domain.Vault.Search.{
  SearchNotesQuery, default_search_limit, default_search_max_limit, limit_of, normalized_limit,
}

limit_of_bounds :
    (l : ℤ)
    → (1 ≤ limit_of l)
      × (limit_of l ≤ default_search_max_limit)
      × (pos 1 ≤ℤ l → l ≤ℤ pos default_search_max_limit → pos (limit_of l) ≡ l)
      × (l ≤ℤ pos 0 → limit_of l ≡ default_search_limit)
unfolding limit_of
limit_of_bounds (negsuc n) = (omega arith, omega arith, (λ h k. absurd (omega arith)), λ h. refl)
limit_of_bounds (pos zero) = (omega arith, omega arith, (λ h k. absurd (omega arith)), λ h. refl)
limit_of_bounds (pos (suc n)) =
    (ground arith, ground arith, (λ h k. ground arith), λ h. absurd (omega arith))

-- A page has between one and 200 results, and the size that is asked for where that lies in
-- this range.
pub normalized_limit_bounds :
    (q : SearchNotesQuery)
    → (1 ≤ normalized_limit q)
      × (normalized_limit q ≤ default_search_max_limit)
      × (pos 1 ≤ℤ q.limit
          → q.limit ≤ℤ pos default_search_max_limit
          → pos (normalized_limit q) ≡ q.limit)
      × (q.limit ≤ℤ pos 0 → normalized_limit q ≡ default_search_limit)
unfolding normalized_limit
normalized_limit_bounds q = limit_of_bounds q.limit
