-- ===== src/Adapters/Sse/Scanning.antt =====
-- What findLineEnd finds before the end of the source: a terminator, and fewer bytes after it.
use agent_routebench.Prelude.{
  ℕ, suc, ◌≤◌, Bool, true, false, List, [], ◌∷◌, Option, none, some, ◌≡◌, refl, length, nat_eq,
  arith, if◌then◌else◌,
}
use agent_routebench.Adapters.Sse.{FoundLine, LF, CR, scan, prepend, after_return}

pub scan_read : (read : Bool) (bytes : List ℕ) → scan false read bytes ≡ scan false false bytes
scan_read read [] = refl
scan_read read (byte ∷ bytes) = refl

pub if-all {ℓ κ} :
    {A : Type ℓ} (P : A → Type κ) (b : Bool) {x y : A} → P x → P y → P (if b then x else y)
if-all P true p q = p
if-all P false p q = q

abbrev pub IsTerminated : Option FoundLine → Type 0
IsTerminated none = Unit
IsTerminated (some found) = 1 ≤ found.terminator

pub prepend-IsTerminated :
    (byte : ℕ) (o : Option FoundLine) → IsTerminated o → IsTerminated (prepend byte o)
prepend-IsTerminated byte none h = tt
prepend-IsTerminated byte (some found) h = h

pub after_return-IsTerminated : (bytes : List ℕ) → IsTerminated (after_return false bytes)
after_return-IsTerminated [] = tt
after_return-IsTerminated (next ∷ rest) = ground arith

pub scan-IsTerminated : (read : Bool) (bytes : List ℕ) → IsTerminated (scan false read bytes)
scan-IsTerminated read [] = tt
scan-IsTerminated read (byte ∷ bytes) = if-all IsTerminated (nat_eq byte LF) (omega arith) (
    if-all IsTerminated (nat_eq byte CR) (after_return-IsTerminated bytes)
      (prepend-IsTerminated byte (scan false true bytes) (scan-IsTerminated true bytes)))

-- Fewer than so many bytes are left after the line.
abbrev pub LeavesFewer : ℕ → Option FoundLine → Type 0
LeavesFewer n none = Unit
LeavesFewer n (some found) = suc (length found.rest) ≤ n

pub prepend-LeavesFewer :
    (n byte : ℕ) (o : Option FoundLine) → LeavesFewer n o → LeavesFewer (suc n) (prepend byte o)
prepend-LeavesFewer n byte none h = tt
prepend-LeavesFewer n byte (some found) h = omega (arith, h)

pub after_return-LeavesFewer :
    (bytes : List ℕ) → LeavesFewer (suc (length bytes)) (after_return false bytes)
after_return-LeavesFewer [] = tt
after_return-LeavesFewer (next ∷ rest) =
    if-all (LeavesFewer (suc (suc (length rest)))) (nat_eq next LF) (omega arith) (omega arith)

pub scan-LeavesFewer :
    (read : Bool) (bytes : List ℕ) → LeavesFewer (length bytes) (scan false read bytes)
scan-LeavesFewer read [] = tt
scan-LeavesFewer read (byte ∷ bytes) =
    if-all (LeavesFewer (suc (length bytes))) (nat_eq byte LF) (omega arith) (
      if-all (LeavesFewer (suc (length bytes))) (nat_eq byte CR) (after_return-LeavesFewer bytes) (
        prepend-LeavesFewer (length bytes) byte (scan false true bytes)
          (scan-LeavesFewer true bytes)))
