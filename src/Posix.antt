-- ===== src/Posix.antt =====
-- The POSIX calls that the library makes on files, as far as it relies on them: a file is its bytes
-- and its size, an open description is a file with a position, and a call's return value is an
-- argument, since the kernel chooses it. The log of calls says which descriptors a routine opens
-- and closes.
pub mod Words
use Prim.Native.Nat.{max}
use bdev_ubi.Common.{
  ℕ, suc, ◌+◌, ◌-◌, ◌≤◌, ◌<◌, Bool, true, false, ◌&&◌, List, [], ◌∷◌, ltb, leb, ◌==◌, if◌then◌else◌,
  ℤ, pos, negsuc,
}

-- A byte string without its terminating NUL.
abbrev pub FilePath : Type 0
FilePath = List ℕ

-- strlen
abbrev pub path_length : FilePath → ℕ
path_length [] = 0
path_length (c ∷ cs) = suc (path_length cs)

-- Memory is a function from an address to a byte.
abbrev pub Memory : Type 0
Memory = ℕ → ℕ

pub record File : Type 0 where
  pub bytes : Memory
  pub size : ℕ

pub record Description : Type 0 where
  pub file : File
  pub offset : ℕ

-- `old` with `k` bytes of `buf` put at address `p`.
unfoldable pub overwrite : Memory → ℕ → Memory → ℕ → Memory
overwrite old p buf k a = if leb p a && ltb a (p + k) then buf (a - p) else old a

-- write(fd, buf, _) that returned `n`: `n` bytes are put at the position, which moves on.
unfoldable pub write_file : Description → Memory → ℤ → Description
write_file d buf (pos k) = record {
  file = record {
    bytes = overwrite d.file.bytes d.offset buf k;
    size = max d.file.size (d.offset + k);
  };
  offset = d.offset + k;
}
write_file d buf (negsuc _) = d

-- read(fd, mem, _) that returned `n`: the first `n` bytes of `mem` come from the file.
unfoldable pub read_file : Description → Memory → ℤ → Memory
read_file d mem (pos k) = overwrite mem 0 (λ a. d.file.bytes (d.offset + a)) k
read_file d mem (negsuc _) = mem

-- Flags of open(2) on Linux.
abbrev pub o_rdonly : ℕ
o_rdonly = 0

abbrev pub o_rdwr : ℕ
o_rdwr = 2

abbrev pub o_creat : ℕ
o_creat = 64

abbrev pub o_direct : ℕ
o_direct = 16384

-- What a routine asks of the kernel, of liburing and of SPDK's pollers, in order: `opened`
-- has the descriptor and the flags, and `free_ctx` is the call `free(ch)`.
pub data Call : Type 0 where
  opened : ℕ → ℕ → Call
  closed : ℕ → Call
  free_ctx ring_init ring_exit poller_register poller_unregister : Call

-- Whether a descriptor that was not open before is open after the calls, given the state so far.
abbrev pub open_after : ℕ → Bool → List Call → Bool
open_after fd b [] = b
open_after fd b (opened n flags ∷ cs) = open_after fd (if n == fd then true else b) cs
open_after fd b (closed n ∷ cs) = open_after fd (if n == fd then false else b) cs
open_after fd b (free_ctx ∷ cs) = open_after fd b cs
open_after fd b (ring_init ∷ cs) = open_after fd b cs
open_after fd b (ring_exit ∷ cs) = open_after fd b cs
open_after fd b (poller_register ∷ cs) = open_after fd b cs
open_after fd b (poller_unregister ∷ cs) = open_after fd b cs
