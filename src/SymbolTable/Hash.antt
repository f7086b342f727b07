-- ===== src/SymbolTable/Hash.antt =====
-- `HASH` of src/symbolTable.c.
use Prim.Native.Char.{code}
use ntu_csie_complier.Prelude.{ℕ, ◌+◌, ◌*◌, ◌%◌, ◌^◌, ◌<◌, ◌≡◌, refl, String, List, [], ◌∷◌, arith}

-- The characters of a C string, without the 0 that ends it. Identifiers are ASCII.
abbrev pub codes : String → List ℕ
codes String.[] = []
codes (String.◌∷◌ c s) = code c ∷ codes s

abbrev pub hash_table_size : ℕ
hash_table_size = 256

-- `idx` is an `int`: its 32 bits wrap round.
hash_loop : ℕ → List ℕ → ℕ
hash_loop idx [] = idx
hash_loop idx (c ∷ str) = hash_loop ((idx * 2 % 2 ^ 32 + c) % 2 ^ 32) str

-- `& (HASH_TABLE_SIZE - 1)` keeps the low eight bits.
unfoldable pub hash : String → ℕ
unfolding hash_loop
hash str = hash_loop 0 (codes str) % hash_table_size

-- The bytes as a number in base two, most significant first, with no word to fill.
unfoldable pub polynomial : ℕ → List ℕ → ℕ
polynomial acc [] = acc
polynomial acc (c ∷ str) = polynomial (acc * 2 + c) str

hash_loop-polynomial :
    (i j : ℕ) (str : List ℕ) → i % 256 ≡ j % 256 → hash_loop i str % 256 ≡ polynomial j str % 256
unfolding hash_loop polynomial
hash_loop-polynomial i j [] h = h
hash_loop-polynomial i j (c ∷ str) h =
    hash_loop-polynomial ((i * 2 % 2 ^ 32 + c) % 2 ^ 32) (j * 2 + c) str (omega arith)

-- A hash is an index into the table's 256 chains, and no word that wraps round changes it: it is
-- the unbounded base-two value of the name, modulo 256.
pub hash-polynomial :
    (str : String) → (hash str < 256) × (hash str ≡ polynomial 0 (codes str) % 256)
unfolding hash
hash-polynomial str = (omega arith, hash_loop-polynomial 0 0 (codes str) refl)
