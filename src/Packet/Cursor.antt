-- ===== src/Packet/Cursor.antt =====
-- A packet that is read up to a point: the bytes before the position, and those from it on.
use fkgo_server.Base.{
  ℕ, suc, ◌+◌, ◌≡◌, sym, ap, ap₂, ◌∙◌, List, [], ◌∷◌, ◌++◌, append_assoc, arith, length,
  length-append,
}
use native.Mathlib.Nat.{add-zero}
use fkgo_server.Packet.{Packet, byte_at}

-- The reader stands behind `before`.
abbrev pub at_cursor : List ℕ → List ℕ → Packet
at_cursor before rest = record { pos = length before; content = before ++ rest }

pub byte_at-cursor :
    (before rest : List ℕ) (i : ℕ) → byte_at (before ++ rest) (length before + i) ≡ byte_at rest i
byte_at-cursor [] rest i = ap (byte_at rest) (omega arith)
byte_at-cursor (b ∷ before) rest i =
    let e : suc (length before) + i ≡ suc (length before + i) = omega arith in
    rw e (byte_at-cursor before rest i)

pub byte_at-first :
    (before rest : List ℕ) → byte_at (before ++ rest) (length before) ≡ byte_at rest 0
byte_at-first before rest =
    ap (byte_at (before ++ rest)) (sym (add-zero (length before))) ∙ byte_at-cursor before rest 0

-- Moving past `read` bytes moves them before the cursor.
pub cursor_step :
    (before read rest : List ℕ) (n : ℕ)
    → length read ≡ n
    → record { pos = length before + n; content = before ++ (read ++ rest) }
      ≡ at_cursor (before ++ read) rest
cursor_step before read rest n e =
    ap₂ (λ k l. record { pos = k; content = l }) (omega (arith, length-append before read))
      (sym (append_assoc before read rest))
