-- ===== src/RbTree/Endless.antt =====
-- rb_tree_insert
use libckit.Common.{ℕ, zero, suc, ◌≡◌, refl, Option, some}
use libckit.Common.Run.{out_of_fuel}
use libckit.RbTree.{insert_copies}
use libckit.RbTree.State.{RbKey, RbValue, World}

-- If `malloc` never fails, rb_tree_insert does not return: for any number of rounds, it is still
-- calling itself.
pub insert_copies_lem :
    (malloc : ℕ → Option ℕ)
    → ((n : ℕ) → (block : ℕ) × (malloc n ≡ some block))
    → (k calls : ℕ) (key : RbKey) (val : RbValue) (w : World)
    → insert_copies k malloc calls key val w ≡ out_of_fuel
unfolding insert_copies
insert_copies_lem malloc gives zero calls key val w = refl
insert_copies_lem malloc gives (suc k) calls key val w =
    let (key_copy, e) = gives calls in
    let (val_copy, d) = gives (suc calls) in
    rw (insert_copies, e, d)
      (insert_copies_lem malloc gives k (suc (suc calls))
        (record { len = key.len; contents = key_copy })
        (record { len = val.len; contents = val_copy }) w)
