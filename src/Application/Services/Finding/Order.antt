-- ===== src/Application/Services/Finding/Order.antt =====
-- The order of the answers of `search` and `recall` is total and transitive.
use umcp.Prelude.{◌==◌, ◌≡◌, Bool, true, false, ◌&&◌, ◌||◌, arith}
use umcp.Score.{ℤ, int_eq, ltb_ℤ}
use umcp.Application.Models.{SearchMemoryItem}
use umcp.Application.Services.Finding.{item_le}

pub item_le-total : (a b : SearchMemoryItem) → item_le a b ≡ false → item_le b a ≡ true
item_le-total a b h = ground arith

-- a greater number first, then what `p` says
abbrev lexicographic : ℤ → ℤ → Bool → Bool
lexicographic x y p = ltb_ℤ y x || (x == y && p)

lexicographic_trans :
    (x y z : ℤ) (p q r : Bool)
    → (p ≡ true → q ≡ true → r ≡ true)
    → lexicographic x y p ≡ true
    → lexicographic y z q ≡ true
    → lexicographic x z r ≡ true
lexicographic_trans x y z p q r f h k = ground arith

pub item_le_trans :
    (a b c : SearchMemoryItem) → item_le a b ≡ true → item_le b c ≡ true → item_le a c ≡ true
item_le_trans a b c =
    lexicographic_trans a.score b.score c.score _ _ _
      (lexicographic_trans a.similarity b.similarity c.similarity _ _ _ (λ h k. ground arith))
