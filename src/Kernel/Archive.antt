-- ===== src/Kernel/Archive.antt =====
-- kernel/tar.c and the lookup of kernel/fs/tarfs.c: the fields and the members of an archive, and its
-- files. An archive is read at offsets of 32 bits.
pub mod Members
pub mod Read
mod Tests
use petix.Prelude.{
  ℕ, zero, suc, ◌+◌, ◌-◌, ◌*◌, ◌/◌, ◌%◌, ◌^◌, Bool, true, ◌&&◌, ◌||◌, List, [], ◌∷◌, ◌++◌, Option,
  none, some, ◌==◌, if◌then◌else◌, get_or, eqb_ℤ, pos, ℤ, pos_part, min, ltb, false, bit,
}
use petix.Libc.Str.{strncmp, strnlen}
use petix.Kernel.Errno.{enoent}
use petix.Kernel.HashMap.{signed_char}
use petix.Kernel.Fs.{Result, found, failed}
use petix.Kernel.Fs.Open.{FileType, ft_dir, ft_special, ft_regular}

abbrev pub tar_blocksize : ℕ
tar_blocksize = 512

-- The fields of `struct tar` that are read, each with the bytes behind it as far as they are read.
pub record Header : Type 0 where
  pub name : List ℕ
  pub mode : List ℕ
  pub size : List ℕ
  pub typeflag : ℕ
  pub devmajor : List ℕ
  pub devminor : List ℕ

-- The block that is read for block `blk`, at the offset `blk * 512` of 32 bits.
abbrev pub block_read : ℕ → ℕ
block_read blk = (blk * tar_blocksize) % 2 ^ 32 / tar_blocksize

-- The loop of `tar_field`, in a `size_t` of 32 bits.
unfoldable pub tar_field_from : ℕ → List ℕ → ℕ
tar_field_from n [] = n
tar_field_from n (c ∷ f) =
    let rest = tar_field_from ((8 * n + signed_char c + 2 ^ 32 - b'0') % 2 ^ 32) f in
    if c == 0 then n else rest

unfoldable pub tar_field : List ℕ → ℕ
tar_field f = tar_field_from 0 f

-- The block behind the member whose header is at block `fblock`.
unfoldable pub tar_next_blk : Header → ℕ → ℕ
tar_next_blk h fblock =
    (fblock + ((tar_field h.size + tar_blocksize - 1) % 2 ^ 32) / tar_blocksize + 1) % 2 ^ 32

-- `struct inode` as the lookup fills it; `dev` are the numbers that MKDEV joins.
pub record TarInode : Type 0 where
  pub exec : Bool
  pub ftype : FileType
  pub size : ℕ
  pub inode_id : ℕ
  pub dev : ℕ × ℕ

-- The name of a member is the path, or the path and a '/'.
unfoldable pub is_member : Header → List ℕ → Bool
is_member h path =
    let pathlen = strnlen path 100 in
    eqb_ℤ (strncmp h.name path 100) (pos 0)
    || (eqb_ℤ (strncmp h.name path pathlen) (pos 0)
        && (get_or h.name pathlen 0 == b'/' && get_or h.name (pathlen + 1) 0 == 0))

-- What `lookup_all` stores in the inode `in'` for the member at `blk`; `none` is the panic on another
-- type. 0111 are the bits 0, 3 and 6.
unfoldable pub member_inode : Header → ℕ → TarInode → Option TarInode
member_inode h blk in' =
    let mode = tar_field h.mode in
    let regular : TarInode = record {
      exec = bit mode 0 || (bit mode 3 || bit mode 6);
      ftype = ft_regular;
      size = tar_field h.size;
      inode_id = blk;
      dev = in'.dev;
    } in
    if h.typeflag == b'0'
    then some regular
    else if h.typeflag == b'5'
    then some (record regular { ftype = ft_dir })
    else if h.typeflag == b'3' || h.typeflag == b'4'
    then some
        (record regular { ftype = ft_special; dev = (tar_field h.devmajor, tar_field h.devminor) })
    else none

abbrev pub found_member : Option TarInode → Option (Result TarInode)
found_member none = none
found_member (some inode) = some (found inode)

-- The loop of `lookup_all` from block `blk`, with what reading each block gives; `none` is a panic,
-- or no fuel.
unfoldable pub tar_lookup : (ℕ → Header) → List ℕ → TarInode → ℕ → ℕ → Option (Result TarInode)
tar_lookup blocks path in' zero blk = none
tar_lookup blocks path in' (suc fuel) blk =
    let h = blocks (block_read blk) in
    let rest = tar_lookup blocks path in' fuel (tar_next_blk h blk) in
    if get_or h.name 0 0 == 0
    then some (failed enoent)
    else if is_member h path
    then found_member (member_inode h blk in')
    else rest

-- `topen`: where in the archive the bytes of a file begin; the root has the inode 0xffffffff.
unfoldable pub topen : TarInode → ℕ
topen in' = if in'.inode_id == 2 ^ 32 - 1 then 0 else ((in'.inode_id + 1) * tar_blocksize) % 2 ^ 32

-- `struct file` as `tread` uses it.
pub record TarFile : Type 0 where
  pub size : ℕ
  pub offset : ℕ
  pub private_data : ℕ

-- `MIN(f->size - f->offset, n)`, as in tmpfs.
unfoldable pub tread_length : TarFile → ℕ → ℕ
tread_length f n =
    if ltb f.size f.offset
    then (2 ^ 32 - (f.offset - f.size) % 2 ^ 32) % 2 ^ 32
    else min (f.size - f.offset) n

-- `tread` over the operation `read` of the archive, which takes an offset and a length and returns a
-- number with the bytes.
unfoldable pub tread : (ℕ → ℕ → ℤ × List ℕ) → TarFile → ℕ → TarFile × ℤ × List ℕ
tread read f n =
    let len = tread_length f n in
    let (ret, buf) = read (f.private_data + f.offset) len in
    if ltb 0 (pos_part ret)
    then (record f { offset = f.offset + pos_part ret }, ret, buf)
    else (f, ret, buf)

-- `getroot`; the size is not set.
unfoldable pub tar_getroot : TarInode → TarInode
tar_getroot in' = record in' { exec = false; ftype = ft_dir; inode_id = 2 ^ 32 - 1 }
