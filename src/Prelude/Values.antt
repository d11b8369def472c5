-- ===== src/Prelude/Values.antt =====
-- Values that the program only stores, compares and adds to.
use Prim.Native.Nat.{ℕ, ◌*◌}

-- an instant, in microseconds
abbrev pub Time : Type 0
Time = ℕ

-- a text, hash or UUID, by a number that stands for it
abbrev pub Text : Type 0
Text = ℕ

-- a JSON document, by a number that stands for it
abbrev pub Json : Type 0
Json = ℕ

-- `timedelta(days=n)`
abbrev pub days : ℕ → ℕ
days n = n * 86400000000
