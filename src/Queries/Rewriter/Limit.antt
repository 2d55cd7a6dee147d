-- ===== src/Queries/Rewriter/Limit.antt =====
-- services/database/query_rewriter.py: the limit of a rewritten statement.
use Prim.Native.Nat.{◌≤◌}
use tenant_intelligence_plat.Base.{ℕ, ◌+◌, ◌≡◌, Bool, false, ltb, arith, Bool-cases, ap, inl, inr}
use tenant_intelligence_plat.Exec.{ok}
use tenant_intelligence_plat.Queries.Rewriter.{
  LimitClause, no_limit, literal_limit, other_limit, apply_limit,
}
use tenant_intelligence_plat.Queries.Rewriter.Filtered.{ok_injective}

-- A statement whose limit is accepted asks for at most one row more than the maximum, and it keeps
-- a limit that was not replaced.
pub apply_limit-bound :
    (max_rows : ℕ) (clause : LimitClause) (limit : ℕ) (truncated : Bool)
    → apply_limit max_rows clause ≡ ok (limit, truncated)
    → (limit ≤ max_rows + 1) × (truncated ≡ false → clause ≡ literal_limit limit)
unfolding apply_limit
apply_limit-bound max_rows no_limit limit truncated h =
    let same = ok_injective h in
    (ground (arith, ap (λ x. x.0) same), λ e. absurd (cc (ap (λ x. x.1) same)))
apply_limit-bound max_rows (literal_limit n) limit truncated h =
    elim (Bool-cases (ltb (max_rows + 1) n)) [
      | inl large ↦
          let same = ok_injective (rw large at h) in
          (ground (arith, ap (λ x. x.0) same), λ e. absurd (cc (ap (λ x. x.1) same)))
      | inr small ↦
          let same = ok_injective (rw small at h) in
          (ground (arith, ap (λ x. x.0) same, small), λ e. ap literal_limit (ap (λ x. x.0) same))
    ]
apply_limit-bound max_rows other_limit limit truncated h = absurd (cc)
