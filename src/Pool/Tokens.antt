-- ===== src/Pool/Tokens.antt =====
-- How each statement moves the tokens: the token of `r` lies in its open row, is in some program's
-- hand, or was used up by a tool that returned.
use jin_core.Base.{
  ℕ, ◌+◌, ◌≤◌, ◌<◌, ◌≡◌, ◌≢◌, refl, String, Bool, Option, none, some, [], ◌∷◌, str_eq, eq_iff,
  if◌then◌else◌, arith, Bool-cases, inl, inr, count, head?,
}
use jin_core.Hitl.Pending.{
  Row, Table, has_id, is_open, update_where, returning_where, delete_where, claim_row, release_row,
}

-- A write that keeps a test on every row keeps its count.
pub count-update_where :
    (q p : Row → Bool) (f : Row → Row) (t : Table)
    → ((row : Row) → q (f row) ≡ q row)
    → count q (update_where p f t) ≡ count q t
unfolding update_where
count-update_where q p f [] h = refl
count-update_where q p f (row ∷ t) h = ground (arith, h row, count-update_where q p f t h)

pub count-delete_where : (q p : Row → Bool) (t : Table) → count q (delete_where p t) ≤ count q t
unfolding delete_where
count-delete_where q p [] = omega arith
count-delete_where q p (row ∷ t) = ground (arith, count-delete_where q p t)

pub count_open-le : (r : String) (t : Table) → count (is_open r) t ≤ count (has_id r) t
count_open-le r [] = omega arith
count_open-le r (row ∷ t) = ground (arith, count_open-le r t)

-- A claim that wins takes an open row and leaves none.
claim_wins :
    (r : String) (now : ℕ) (t : Table)
    → (count (is_open r) (update_where (is_open r) (claim_row now) t) ≡ 0)
      × (head? (returning_where (is_open r) (claim_row now) t) ≢ none → 0 < count (is_open r) t)
unfolding update_where returning_where
claim_wins r now [] = (refl, λ h. absurd (h refl))
claim_wins r now (row ∷ t) = ground (arith, claim_wins r now t)

-- A statement on another request leaves the open rows of `r`.
open_claim_other :
    (r rid : String) (now : ℕ) (t : Table)
    → rid ≢ r
    → count (is_open r) (update_where (is_open rid) (claim_row now) t) ≡ count (is_open r) t
unfolding update_where
open_claim_other r rid now [] h = refl
open_claim_other r rid now (row ∷ t) h =
    ground
      (arith, eq_iff row.request_id r, eq_iff row.request_id rid, open_claim_other r rid now t h)

pub open_release_other :
    (r rid : String) (e : Option String) (t : Table)
    → rid ≢ r
    → count (is_open r) (update_where (has_id rid) (release_row e) t) ≡ count (is_open r) t
unfolding update_where
open_release_other r rid e [] h = refl
open_release_other r rid e (row ∷ t) h =
    ground
      (arith, eq_iff row.request_id r, eq_iff row.request_id rid, open_release_other r rid e t h)

abbrev pub won : String → String → Option Row → ℕ
won r rid none = 0
won r rid (some _) = if str_eq rid r then 1 else 0

-- Over the open rows and the winner's hand, a claim makes no token.
pub claim_moves :
    (r rid : String) (now : ℕ) (t : Table)
    → count (is_open r) (update_where (is_open rid) (claim_row now) t)
        + won r rid (head? (returning_where (is_open rid) (claim_row now) t))
      ≤ count (is_open r) t
claim_moves r rid now t = elim (Bool-cases (str_eq rid r)) [
  | inl same ↦ rw ((eq_iff rid r).0 same) (ground (arith, claim_wins r now t))
  | inr other ↦
      ground
        (arith, eq_iff rid r, open_claim_other r rid now t (λ e. cc ((eq_iff rid r).1 e, other)))
]
