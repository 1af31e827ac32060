-- ===== src/Kernel/DevFs.antt =====
-- kernel/fs/devfs.c: the table of the devices and its lookup.
pub mod Listing
use petix.Prelude.{
  ℕ, suc, ◌+◌, ◌*◌, ◌^◌, List, [], ◌∷◌, Option, none, some, ◌==◌, if◌then◌else◌, eqb_ℤ, pos,
}
use petix.Libc.Str.{strcmp}
use petix.Kernel.Errno.{Ret, ok, err, eperm, enoent}
use petix.Kernel.Fs.{Result, found, failed}
use petix.Kernel.Fs.Open.{Inode, ft_dir, ft_special}

abbrev pub id_root : ℕ
id_root = 0

abbrev pub id_other : ℕ
id_other = 1

abbrev pub vgatty : List ℕ
vgatty = b'v' ∷ b'g' ∷ b'a' ∷ b't' ∷ b't' ∷ b'y' ∷ []

abbrev pub comtty : List ℕ
comtty = b'c' ∷ b'o' ∷ b'm' ∷ b't' ∷ b't' ∷ b'y' ∷ []

abbrev pub fb : List ℕ
fb = b'f' ∷ b'b' ∷ []

abbrev pub fbtty : List ℕ
fbtty = b'f' ∷ b'b' ∷ b't' ∷ b't' ∷ b'y' ∷ []

-- `MKDEV(ma, 0)` for the numbers DEV_VGATTY, DEV_COMTTY, DEV_FB and DEV_FBTTY, which are small.
abbrev pub mkdev : ℕ → ℕ
mkdev ma = ma * 2 ^ 16

unfoldable pub dopen : Inode → Ret
dopen in' = if in'.inode_id == id_root then ok 0 else err eperm

unfoldable pub getroot : Inode → Inode
getroot in' = record in' { ftype = ft_dir; inode_id = id_root }

-- The entry at an offset, its number and the text that `strncpy` copies, and the new offset.
unfoldable pub getdent : ℕ → Option (ℕ × List ℕ) × ℕ
getdent offset =
    let entry =
      if offset == 0
      then some (0, vgatty)
      else if offset == 1
      then some (1, comtty)
      else if offset == 2
      then some (2, fb)
      else if offset == 3
      then some (3, fbtty)
      else none in
    (entry, suc offset)

-- The inode `in'` as it is left for the device of a driver.
abbrev pub device : Inode → ℕ → Inode
device in' ma = record in' { ftype = ft_special; inode_id = id_other; dev = mkdev ma }

unfoldable pub lookup_all : List ℕ → Inode → Result Inode
lookup_all path in' =
    if eqb_ℤ (strcmp path vgatty) (pos 0)
    then found (device in' 1)
    else if eqb_ℤ (strcmp path comtty) (pos 0)
    then found (device in' 3)
    else if eqb_ℤ (strcmp path fb) (pos 0)
    then found (device in' 4)
    else if eqb_ℤ (strcmp path fbtty) (pos 0)
    then found (device in' 5)
    else failed enoent
