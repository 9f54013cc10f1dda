-- ===== src/Const/Types.antt =====
-- The record types of SOURCE/src/modules/python/zeroconf/src/zeroconf/const.py.
use Prim.Native.Nat.{ℕ}

abbrev pub a : ℕ
a = 1

abbrev pub cname : ℕ
cname = 5

abbrev pub ptr : ℕ
ptr = 12

abbrev pub hinfo : ℕ
hinfo = 13

abbrev pub txt : ℕ
txt = 16

abbrev pub aaaa : ℕ
aaaa = 28

abbrev pub srv : ℕ
srv = 33

abbrev pub nsec : ℕ
nsec = 47

abbrev pub any : ℕ
any = 255
