-- ===== src/CString.antt =====
-- lib/c/string.c: the byte copies and the operations on NUL-terminated strings.
-- `size_t` is `unsigned int`, so a count and an index of that type are read modulo `2 ^ 32`.
-- A loop with no bound of its own takes fuel, and `none` means that the fuel ran out.
pub mod Copy
pub mod Text
mod Tests
use jonix.Base.{
  ℕ, zero, suc, ◌+◌, ◌-◌, ◌%◌, ◌^◌, Bool, true, false, ◌&&◌, not, Option, none, some, ltb, leb,
  ◌==◌, if◌then◌else◌, Ptr, Mem, store8, ◌>>=◌,
}
use jonix.Base.Int.{ℤ, pos, sub_ℕ}

abbrev pub size_mod : ℕ
size_mod = 2 ^ 32

-- `for(; i < count; i++) dest[i] = src[i]` with `left` rounds to go.
pub copy_up : ℕ → ℕ → Ptr → Ptr → Mem → Mem
copy_up zero i dest src m = m
copy_up (suc left) i dest src m = copy_up left (i + 1) dest src (store8 m (dest + i) (m (src + i)))

pub memcpy : Ptr → Ptr → ℕ → Mem → Mem
memcpy dest src count m = copy_up count 0 dest src m

-- `for(i = count-1; i >= 0; i--) dest[i] = src[i]` over an unsigned `i`.
pub copy_down : ℕ → ℕ → Ptr → Ptr → Mem → Option Mem
copy_down zero i dest src m = none
copy_down (suc fuel) i dest src m =
    let rest =
      copy_down fuel ((i + size_mod - 1) % size_mod) dest src (store8 m (dest + i) (m (src + i))) in
    if leb 0 i then rest else some m

pub memmove : ℕ → Ptr → Ptr → ℕ → Mem → Option Mem
memmove fuel dest src count m =
    if ltb dest src
    then some (copy_up count 0 dest src m)
    else copy_down fuel ((count + size_mod - 1) % size_mod) dest src m

fill_up : ℕ → ℕ → Ptr → ℕ → Mem → Mem
fill_up zero i dest val m = m
fill_up (suc left) i dest val m = fill_up left (i + 1) dest val (store8 m (dest + i) val)

pub memset : Ptr → ℕ → ℕ → Mem → Mem
unfolding fill_up
memset dest val count m = fill_up count 0 dest (val % 256) m

strlen_loop : ℕ → Ptr → ℕ → Mem → Option ℕ
strlen_loop zero str len m = none
strlen_loop (suc fuel) str len m =
    let rest = strlen_loop fuel (str + 1) ((len + 1) % size_mod) m in
    if not (m str == 0) then rest else some len

pub strlen : ℕ → Ptr → Mem → Option ℕ
strlen fuel str m = strlen_loop fuel str 0 m

strcpy_loop : ℕ → ℕ → Ptr → Ptr → Mem → Option Mem
strcpy_loop zero i dest src m = none
strcpy_loop (suc fuel) i dest src m =
    let rest = strcpy_loop fuel (i + 1) dest src (store8 m (dest + i) (m (src + i))) in
    if not (m (src + i) == 0) then rest else some (store8 m (dest + i) 0)

pub strcpy : ℕ → Ptr → Ptr → Mem → Option Mem
strcpy fuel dest src m = strcpy_loop fuel 0 dest src m

-- `bound` is the value of `max_len-1`.
strcpy_n_loop : ℕ → ℕ → Ptr → Ptr → ℕ → Mem → Option Mem
strcpy_n_loop zero i dest src bound m = none
strcpy_n_loop (suc fuel) i dest src bound m =
    let rest = strcpy_n_loop fuel (i + 1) dest src bound (store8 m (dest + i) (m (src + i))) in
    if ltb i bound && not (m (src + i) == 0) then rest else some (store8 m (dest + i) 0)

pub strcpy_n : ℕ → Ptr → Ptr → ℕ → Mem → Option Mem
strcpy_n fuel dest src max_len m =
    strcpy_n_loop fuel 0 dest src ((max_len + size_mod - 1) % size_mod) m

pub strcat : ℕ → Ptr → Ptr → Mem → Option Mem
strcat fuel dest src m = do n ← strlen fuel dest m; strcpy fuel (dest + n) src m

strcmp_loop : ℕ → ℕ → Ptr → Ptr → Mem → Option ℤ
strcmp_loop zero i s1 s2 m = none
strcmp_loop (suc fuel) i s1 s2 m =
    let rest = strcmp_loop fuel (i + 1) s1 s2 m in
    if (m (s1 + i) == 0) && (m (s2 + i) == 0)
    then some (pos 0)
    else if not (m (s1 + i) == m (s2 + i))
    then some (sub_ℕ (m (s1 + i)) (m (s2 + i)))
    else rest

pub strcmp : ℕ → Ptr → Ptr → Mem → Option ℤ
unfolding strcmp_loop
strcmp fuel s1 s2 m = strcmp_loop fuel 0 s1 s2 m
