-- ===== src/Scanner/Role.antt =====
-- strategies/scanner.py: the Persian names of the roles of legs.
use garnet_trader.Prelude.{ℕ, List, [], ◌∷◌, ◌++◌}

abbrev pub call_role : List ℕ
call_role = 1705 ∷ 1575 ∷ 1604 ∷ []

abbrev pub put_role : List ℕ
put_role = 1662 ∷ 1608 ∷ 1578 ∷ []

abbrev pub long : List ℕ
long = 1604 ∷ 1575 ∷ 1606 ∷ 1711 ∷ []

abbrev pub short : List ℕ
short = 1588 ∷ 1608 ∷ 1585 ∷ 1578 ∷ []

abbrev pub protective_put : List ℕ
protective_put = put_role ++ 32 ∷ 1605 ∷ 1581 ∷ 1575 ∷ 1601 ∷ 1592 ∷ []

abbrev pub sold_call : List ℕ
sold_call = call_role ++ 32 ∷ 1601 ∷ 1585 ∷ 1608 ∷ 1582 ∷ 1578 ∷ 1607 ∷ []

abbrev pub long_put : List ℕ
long_put = long ++ 32 ∷ put_role

abbrev pub short_put : List ℕ
short_put = short ++ 32 ∷ put_role

abbrev pub short_call : List ℕ
short_call = short ++ 32 ∷ call_role

abbrev pub long_call : List ℕ
long_call = long ++ 32 ∷ call_role

abbrev pub short_near : List ℕ
short_near = short ++ 32 ∷ 1606 ∷ 1586 ∷ 1583 ∷ 1740 ∷ 1705 ∷ []

abbrev pub long_far : List ℕ
long_far = long ++ 32 ∷ 1583 ∷ 1608 ∷ 1585 ∷ []
