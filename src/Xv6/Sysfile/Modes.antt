-- ===== src/Xv6/Sysfile/Modes.antt =====
-- What the mode of sys_open in xv6/kernel/sysfile.c selects.
use p.Prelude.{
  ℕ, ◌+◌, ◌*◌, ◌/◌, ◌%◌, ◌≡◌, ◌≢◌, refl, ap, inl, inr, true, false, Bool-cases, fun_ext, Option,
  none, some, List, ◌==◌, arith,
}
use p.Word.{Word, Byte}
use p.Xv6.Outcome.{Action, pure, ◌>>=◌, ◌>>◌}
use p.Xv6.Fs.File.{Devices}
use p.Xv6.Fs.Icache.{iunlock}
use p.Xv6.Ftable.{File, file_of, put_file}
use p.Xv6.Sysfile.Calls.{Task, on_files, on_inodes, fdalloc}
use p.Xv6.Sysfile.Inodes.{and_bit, o_create, o_checked, open_inode}
use p.Xv6.Sysfile.Opens.{opened, finish_open, open_with}

same_create : (omode : Word) → and_bit (omode + o_checked) o_create ≡ and_bit omode o_create
same_create omode =
    ap (λ b. b * 512) (let e : (omode + 1024) / 512 % 2 ≡ omode / 512 % 2 = omega arith in e)

opened-o_checked : (ip : ℕ) (omode : Word) → opened ip (omode + o_checked) ≡ opened ip omode
opened-o_checked ip omode =
    let low : (omode + 1024) % 2 ≡ omode % 2 = omega arith in
    let high : (omode + 1024) / 2 % 2 ≡ omode / 2 % 2 = omega arith in
    fun_ext (λ f. rw (low, high) refl)

finish_open-o_checked :
    (ip f : ℕ) (omode : Word) (fd : Option ℕ)
    → finish_open ip f (omode + o_checked) fd ≡ finish_open ip f omode fd
unfolding finish_open
finish_open-o_checked ip f omode none = refl
finish_open-o_checked ip f omode (some fd) =
    ap
      (λ (set_up : File → File). do
        on_inodes (iunlock ip)
        on_files (do a ← file_of f; put_file f (set_up a))
        pure fd)
      (opened-o_checked ip omode)

open_with-o_checked :
    (ip : ℕ) (omode : Word) (file : Option ℕ)
    → open_with ip (omode + o_checked) file ≡ open_with ip omode file
unfolding open_with
open_with-o_checked ip omode none = refl
open_with-o_checked ip omode (some f) =
    ap (λ (k : Option ℕ → Action Task Word). fdalloc f >>= k)
      (fun_ext (finish_open-o_checked ip f omode))

-- The bit O_CHECKED has no effect on open: with it added to a mode other than O_RDONLY, open finds or makes
-- the same inode, and sets up the same file for it.
pub open_inode-o_checked :
    (devsw : Devices) (stack : List Byte) (cwd : ℕ) (path : List Byte) (omode : Word)
    → omode ≢ 0
    → (open_inode devsw stack cwd path (omode + o_checked) ≡ open_inode devsw stack cwd path omode)
      × ((ip : ℕ) (file : Option ℕ)
          → open_with ip (omode + o_checked) file ≡ open_with ip omode file)
unfolding open_inode
open_inode-o_checked devsw stack cwd path omode set =
    let some_bit : (omode == 0) ≡ false = ground (arith, set) in
    let some_bit' : (omode + 1024 == 0) ≡ false = ground arith in
    let create_bit = same_create omode in
    (
      elim (Bool-cases (and_bit omode o_create == 0)) [
        | inr e ↦ rw (open_inode, create_bit, e) refl
        | inl e ↦
            let none_set : and_bit omode o_create ≡ 0 = ground (arith, e) in
            let dead : (and_bit (and_bit omode o_create) o_checked == 0) ≡ true =
              ap (λ b. and_bit b o_checked == 0) none_set in
            rw (open_inode, create_bit, e) (rw (create_bit, dead) (rw (some_bit, some_bit') refl))
      ],
      λ ip file. open_with-o_checked ip omode file,
    )
