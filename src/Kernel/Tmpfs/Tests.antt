-- ===== src/Kernel/Tmpfs/Tests.antt =====
-- A file with one page of which ten bytes are used, and three bytes that are written to it.
use petix.Prelude.{
  ℕ, ◌≡◌, refl, List, [], ◌∷◌, some, take, replicate, length-replicate, arith, ℤ, pos, inl, ◌≢◌,
  if◌then◌else◌,
}
use petix.Kernel.Tmpfs.{page_size, TmpFile, tmp_read, tmp_write}
use petix.Kernel.Errno.{ok, enoent}
use petix.Kernel.HashMap.{lookup, full}
use petix.Kernel.HashMap.Table.{IsTable}
use petix.Kernel.Fs.{found, failed}
use petix.Kernel.Fs.Open.{ft_dir, ft_regular}
use petix.Kernel.Tmpfs.Directory.{
  DirEntry, string_key, TmpDir, entry, get_child, tmp_lookup, new_inode, add_entry,
}
use petix.Kernel.Tmpfs.Directory.Entries.{text_of, same_text, add_entry-tmp_lookup}
use petix.Kernel.Tmpfs.Flat.{no_pages, page}
use petix.Kernel.Tmpfs.Read.{IsFile, ReadOut, tmp_read-ReadOut}
use petix.Kernel.Tmpfs.Write.{Written, tmp_write-Written, tmp_read-tmp_write}

abbrev ten_bytes : TmpFile
ten_bytes = record { pages = replicate page_size 5 ∷ []; node_size = 10; size = 10; offset = 8 }

abbrev three : List ℕ
three = 1 ∷ 2 ∷ 3 ∷ replicate page_size 9

ten_bytes-IsFile : IsFile ten_bytes
ten_bytes-IsFile = record {
  full = page (length-replicate {A = ℕ} page_size 5) no_pages;
  holds = omega arith;
  inside = omega arith;
  small = omega arith;
}

tmp_read-ReadOut_example :
    (f' : TmpFile) × (out : List ℕ) × (len : ℕ) × (tmp_read ten_bytes 100 ≡ some (f', out, len))
    × ReadOut ten_bytes f' 100 out len
tmp_read-ReadOut_example = tmp_read-ReadOut ten_bytes 100 ten_bytes-IsFile

tmp_write-Written_example :
    (f' : TmpFile) × (tmp_write (replicate page_size 6) ten_bytes three 3 ≡ some (f', 3))
    × Written ten_bytes f' (replicate page_size 6) three 3
tmp_write-Written_example =
    tmp_write-Written ten_bytes (replicate page_size 6) three 3 ten_bytes-IsFile
      (length-replicate {A = ℕ} page_size 6) refl (omega arith) (omega arith)
      (omega (arith, length-replicate {A = ℕ} page_size 9))

tmp_read-tmp_write_example :
    (f' f'' : TmpFile) × (out : List ℕ) × (tmp_write (replicate page_size 6) ten_bytes three 3
      ≡ some (f', 3))
    × (tmp_read (record f' { offset = 8 }) 3 ≡ some (f'', out, 3))
    × (take 3 out ≡ 1 ∷ 2 ∷ 3 ∷ [])
    × (f''.offset ≡ 11)
tmp_read-tmp_write_example =
    tmp_read-tmp_write ten_bytes (replicate page_size 6) three 3 ten_bytes-IsFile
      (length-replicate {A = ℕ} page_size 6) refl (omega arith) (omega arith)
      (omega (arith, length-replicate {A = ℕ} page_size 9))

-- The empty directory of `tmp_getroot`.
abbrev root : TmpDir
root = record {
  ftype = ft_dir;
  children = record { buckets = []; buckets_size = 0; entries = 0; freed = [] };
  inodes = λ n. record { ftype = ft_dir; size = 7; inode_id = 100; dev = 0 };
}

abbrev at_one : List ℕ → ℤ
at_one q = pos 1

abbrev motd : List ℕ
motd = b'm' ∷ b'o' ∷ b't' ∷ b'd' ∷ []

root-IsTable : IsTable (string_key at_one) text_of root.children
root-IsTable = inl (record { no_buckets = refl; no_size = refl; no_entries = refl })

root-fresh :
    (q : List ℕ) (e : DirEntry)
    → lookup (string_key at_one) root.children (entry q) ≡ some (full e)
    → e.child ≢ 200
unfolding lookup
root-fresh q e h = absurd cc

root-lookup : tmp_lookup at_one root motd ≡ some (failed enoent)
unfolding tmp_lookup get_child lookup
root-lookup = refl

add_entry-tmp_lookup_example :
    (dir' : TmpDir) × (add_entry at_one ft_regular root motd 200 ≡ some (dir', ok 0))
    × IsTable (string_key at_one) text_of dir'.children
    × ((q : List ℕ)
        → tmp_lookup at_one dir' q ≡ (
            if same_text motd q
            then some (found (new_inode ft_regular 200 (root.inodes 200)))
            else tmp_lookup at_one root q))
add_entry-tmp_lookup_example =
    add_entry-tmp_lookup at_one (λ q. refl) ft_regular root motd 200 refl root-IsTable root-fresh
      root-lookup
