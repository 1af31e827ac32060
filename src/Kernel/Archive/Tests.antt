-- ===== src/Kernel/Archive/Tests.antt =====
-- An archive of a directory and a file of 600 bytes, whose first block is like the header of "c".
use petix.Prelude.{
  ℕ, ◌≡◌, refl, ◌∙◌, true, false, List, [], ◌∷◌, ◌++◌, some, replicate, get_or, arith,
}
use petix.Libc.Str.{strncmp, strnlen}
use petix.Kernel.Errno.{enoent}
use petix.Kernel.Fs.{found, failed}
use petix.Kernel.Fs.Open.{ft_dir, ft_regular}
use petix.Kernel.Archive.{
  Header, tar_field_from, tar_field, is_member, member_inode, TarInode, tar_lookup,
}
use petix.Kernel.Archive.Members.{
  Member, IsMember, AreMembers, end, member, archive, first_member, Opens, tar_lookup-first_member,
  tar_lookup-topen,
}

abbrev zeros : List ℕ
zeros = replicate 100 0

abbrev header : List ℕ → List ℕ → ℕ → Header
header name size typeflag = record {
  name = name ++ zeros;
  mode = b'0' ∷ b'7' ∷ b'5' ∷ b'5' ∷ 0 ∷ [];
  size = size;
  typeflag = typeflag;
  devmajor = [];
  devminor = [];
}

abbrev like_c : Header
like_c = header (b'c' ∷ []) (b'0' ∷ 0 ∷ []) b'0'

abbrev last : Header
last = header [] (b'0' ∷ 0 ∷ []) b'0'

abbrev dir_a : Member
dir_a = record { header = header (b'a' ∷ b'/' ∷ []) (b'0' ∷ 0 ∷ []) b'5'; contents = [] }

abbrev file_b : Member
file_b = record {
  header = header (b'b' ∷ []) (b'1' ∷ b'1' ∷ b'3' ∷ b'0' ∷ 0 ∷ []) b'0';
  contents = like_c ∷ last ∷ [];
}

abbrev unset : TarInode
unset = record { exec = false; ftype = ft_dir; size = 0; inode_id = 0; dev = (0, 0) }

dir_a-IsMember : IsMember dir_a
unfolding tar_field tar_field_from
dir_a-IsMember = record { named = refl; filled = refl; fits = omega arith }

file_b-IsMember : IsMember file_b
unfolding tar_field tar_field_from
file_b-IsMember = record { named = refl; filled = refl; fits = omega arith }

two_members : AreMembers (dir_a ∷ file_b ∷ [])
two_members = member dir_a-IsMember (member file_b-IsMember end)

tar_lookup-first_member_example :
    tar_lookup (λ i. get_or (archive (dir_a ∷ file_b ∷ []) last) i last) (b'b' ∷ []) unset 3 0
    ≡ first_member (dir_a ∷ file_b ∷ []) (b'b' ∷ []) unset 0
tar_lookup-first_member_example =
    tar_lookup-first_member (b'b' ∷ []) unset last refl (dir_a ∷ file_b ∷ []) 3 two_members
      (omega arith) (omega arith)

finds_b :
    first_member (dir_a ∷ file_b ∷ []) (b'b' ∷ []) unset 0
    ≡ some
        (found (record { exec = true; ftype = ft_regular; size = 600; inode_id = 1; dev = (0, 0) }))
unfolding is_member strnlen strncmp member_inode tar_field tar_field_from
finds_b = refl

no_c : first_member (dir_a ∷ file_b ∷ []) (b'c' ∷ []) unset 0 ≡ some (failed enoent)
unfolding is_member strnlen strncmp
no_c = refl

abbrev inode_b : TarInode
inode_b = record { exec = true; ftype = ft_regular; size = 600; inode_id = 1; dev = (0, 0) }

tar_lookup-topen_example :
    Opens (dir_a ∷ file_b ∷ []) (archive (dir_a ∷ file_b ∷ []) last) last (b'b' ∷ []) inode_b
tar_lookup-topen_example =
    tar_lookup-topen (b'b' ∷ []) unset last refl (dir_a ∷ file_b ∷ []) 3 inode_b two_members
      (omega arith) (omega arith)
      (tar_lookup-first_member (b'b' ∷ []) unset last refl (dir_a ∷ file_b ∷ []) 3 two_members
          (omega arith) (omega arith)
        ∙ finds_b)
