-- ===== src/Migration/Backup/Steps.antt =====
-- crates/yoop-core/src/migration/backup.rs: chains of steps that may fail.
use yoop.Base.{◌≡◌, refl, Bool, true, false, Option, none, some, Result, ok, err, Error, arith}
use yoop.Migration.Backup.{bind, called, parsed_as}

-- A chain of steps that ends well has a first one that did.
pub bind-ok :
    {Disk A B : Type 0} (r : Result A × Disk) (next : A → Disk → Result B × Disk) (b : B) (d : Disk)
    → bind r next ≡ (ok b, d)
    → (a : A) × (e : Disk) × (r ≡ (ok a, e)) × (next a e ≡ (ok b, d))
bind-ok (err x, e) next b d h = absurd (ground (arith, h))
bind-ok (ok a, e) next b d h = (a, e, refl, h)

pub called-ok :
    {Disk : Type 0} (e : Error) (r : Bool × Disk) (u : Unit {0}) (d : Disk)
    → called e r ≡ (ok u, d)
    → r ≡ (true, d)
called-ok e (true, d₁) u d h = ground (arith, h)
called-ok e (false, d₁) u d h = absurd (ground (arith, h))

pub parsed_as-ok :
    {Disk A : Type 0} (e : Error) (o : Option A) (a : A) (d d' : Disk)
    → parsed_as e o d ≡ (ok a, d')
    → (o ≡ some a) × (d ≡ d')
parsed_as-ok e none a d d' h = absurd (ground (arith, h))
parsed_as-ok e (some b) a d d' h = (ground (arith, h), ground (arith, h))

-- What each step keeps of the disk, a chain of steps keeps, however it ends.
pub bind-keeps :
    {Disk A B : Type 0} (P : Disk → Type 0) (r : Result A × Disk)
    (next : A → Disk → Result B × Disk)
    → P r.1
    → ((a : A) (e : Disk) → P e → P (next a e).1)
    → P (bind r next).1
bind-keeps P (err x, e) next h k = h
bind-keeps P (ok a, e) next h k = k a e h

pub called-keeps :
    {Disk : Type 0} (P : Disk → Type 0) (e : Error) (r : Bool × Disk) → P r.1 → P (called e r).1
called-keeps P e (true, d) h = h
called-keeps P e (false, d) h = h

pub parsed_as-keeps :
    {Disk A : Type 0} (P : Disk → Type 0) (e : Error) (o : Option A) (d : Disk)
    → P d
    → P (parsed_as e o d).1
parsed_as-keeps P e none d h = h
parsed_as-keeps P e (some a) d h = h
