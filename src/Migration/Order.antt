-- ===== src/Migration/Order.antt =====
-- The order in which the removal of duplicates ranks the rows of an endpoint.
use proxy_in_a_box.Prelude.{◌≡◌, true, false, arith}
use proxy_in_a_box.Migration.{Row, has_same_endpoint, is_ranked_before}

pub has_same_endpoint_refl : (a : Row) → has_same_endpoint a a ≡ true
unfolding has_same_endpoint
has_same_endpoint_refl a = ground arith

pub has_same_endpoint_symm :
    (a b : Row) → has_same_endpoint a b ≡ true → has_same_endpoint b a ≡ true
unfolding has_same_endpoint
has_same_endpoint_symm a b h = ground arith

pub has_same_endpoint_trans :
    (a b c : Row)
    → has_same_endpoint a b ≡ true
    → has_same_endpoint b c ≡ true
    → has_same_endpoint a c ≡ true
unfolding has_same_endpoint
has_same_endpoint_trans a b c h k = ground arith

pub is_ranked_before_irrefl : (a : Row) → is_ranked_before a a ≡ false
unfolding is_ranked_before
is_ranked_before_irrefl a = ground arith

-- What is not before `b` is not before what comes before `b`.
pub is_ranked_before_trans :
    (a b c : Row)
    → is_ranked_before a b ≡ false
    → is_ranked_before c b ≡ true
    → is_ranked_before c a ≡ true
unfolding is_ranked_before
is_ranked_before_trans a b c h k = ground arith

pub is_ranked_before_asymm :
    (a b : Row) → is_ranked_before a b ≡ true → is_ranked_before b a ≡ false
unfolding is_ranked_before
is_ranked_before_asymm a b h = ground arith

pub is_ranked_before_total :
    (a b : Row)
    → is_ranked_before a b ≡ false
    → is_ranked_before b a ≡ false
    → (a.proxy).id ≡ (b.proxy).id
unfolding is_ranked_before
is_ranked_before_total a b h k = ground arith
