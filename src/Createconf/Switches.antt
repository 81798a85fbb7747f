-- ===== src/Createconf/Switches.antt =====
-- The part of duma_config.h that `writeFile` of src/createconf.c writes from the macros it was compiled
-- with: which macros are defined for each kind of library.
use duma.Prelude.{ℕ, Bool, true, false, List, [], ◌∷◌, ◌==◌, if◌then◌else◌}

-- The macros, without the prefix DUMA_.
pub data Macro : Type 0 where
  so_library dll_library detours no_global_malloc_free explicit_init no_thread_safety : Macro
  semaphores so_no_cpp_support no_cpp_support so_no_leakdetection no_leakdetection : Macro
  so_prefer_atexit prefer_atexit so_prefer_getenv prefer_getenv old_new_macro : Macro
  old_del_macro no_strerror so_no_hang_msg no_hang_msg skip_setup lib_no_cpp_support : Macro
  lib_no_leakdetection lib_prefer_atexit lib_prefer_getenv lib_no_hang_msg : Macro

unfoldable pub number_of : Macro → ℕ
number_of so_library = 0
number_of dll_library = 1
number_of detours = 2
number_of no_global_malloc_free = 3
number_of explicit_init = 4
number_of no_thread_safety = 5
number_of semaphores = 6
number_of so_no_cpp_support = 7
number_of no_cpp_support = 8
number_of so_no_leakdetection = 9
number_of no_leakdetection = 10
number_of so_prefer_atexit = 11
number_of prefer_atexit = 12
number_of so_prefer_getenv = 13
number_of prefer_getenv = 14
number_of old_new_macro = 15
number_of old_del_macro = 16
number_of no_strerror = 17
number_of so_no_hang_msg = 18
number_of no_hang_msg = 19
number_of skip_setup = 20
number_of lib_no_cpp_support = 21
number_of lib_no_leakdetection = 22
number_of lib_prefer_atexit = 23
number_of lib_prefer_getenv = 24
number_of lib_no_hang_msg = 25

-- `#ifdef M #undef M #endif`, `#ifndef M #define M #endif` and `#define M 1`.
pub data Line : Type 0 where
  undefine define set : Macro → Line

-- The line for a macro, by a macro of the compilation.
unfoldable pub switch : (Macro → Bool) → Macro → Macro → Line
switch flags test m = if flags test then define m else undefine m

-- DUMA_SO_LIBRARY.
unfoldable pub so_lines : (Macro → Bool) → List Line
unfolding switch
so_lines flags =
    undefine no_global_malloc_free
    ∷ undefine explicit_init
    ∷ undefine no_thread_safety
    ∷ switch flags semaphores semaphores
    ∷ switch flags so_no_cpp_support no_cpp_support
    ∷ switch flags so_no_leakdetection no_leakdetection
    ∷ switch flags so_prefer_atexit prefer_atexit
    ∷ switch flags so_prefer_getenv prefer_getenv
    ∷ undefine old_new_macro
    ∷ undefine old_del_macro
    ∷ switch flags no_strerror no_strerror
    ∷ switch flags so_no_hang_msg no_hang_msg
    ∷ []

-- DUMA_DLL_LIBRARY.
unfoldable pub dll_lines : (Macro → Bool) → List Line
unfolding switch
dll_lines flags =
    set skip_setup
    ∷ set no_global_malloc_free
    ∷ set explicit_init
    ∷ undefine no_thread_safety
    ∷ switch flags so_no_cpp_support no_cpp_support
    ∷ switch flags so_no_leakdetection no_leakdetection
    ∷ switch flags so_prefer_atexit prefer_atexit
    ∷ switch flags so_prefer_getenv prefer_getenv
    ∷ undefine old_new_macro
    ∷ undefine old_del_macro
    ∷ switch flags so_no_hang_msg no_hang_msg
    ∷ []

-- DUMA_DETOURS.
unfoldable pub detours_lines : (Macro → Bool) → List Line
unfolding switch
detours_lines flags =
    set skip_setup
    ∷ set no_global_malloc_free
    ∷ set explicit_init
    ∷ undefine no_thread_safety
    ∷ switch flags so_no_cpp_support no_cpp_support
    ∷ switch flags so_no_leakdetection no_leakdetection
    ∷ switch flags so_prefer_atexit prefer_atexit
    ∷ switch flags so_prefer_getenv prefer_getenv
    ∷ undefine old_new_macro
    ∷ undefine old_del_macro
    ∷ switch flags so_no_hang_msg no_hang_msg
    ∷ []

-- No library of these kinds.
unfoldable pub regular_lines : (Macro → Bool) → List Line
unfolding switch
regular_lines flags =
    switch flags no_global_malloc_free no_global_malloc_free
    ∷ switch flags explicit_init explicit_init
    ∷ switch flags no_thread_safety no_thread_safety
    ∷ switch flags lib_no_cpp_support no_cpp_support
    ∷ switch flags lib_no_leakdetection no_leakdetection
    ∷ switch flags lib_prefer_atexit prefer_atexit
    ∷ switch flags lib_prefer_getenv prefer_getenv
    ∷ switch flags old_new_macro old_new_macro
    ∷ switch flags old_del_macro old_del_macro
    ∷ switch flags no_strerror no_strerror
    ∷ switch flags lib_no_hang_msg no_hang_msg
    ∷ []

-- Whether a macro is defined behind some lines.
unfoldable pub after_line : Line → (Macro → Bool) → Macro → Bool
unfolding number_of
after_line (undefine m) before k = if number_of k == number_of m then false else before k
after_line (define m) before k = if number_of k == number_of m then true else before k
after_line (set m) before k = if number_of k == number_of m then true else before k

unfoldable pub after_lines : List Line → (Macro → Bool) → Macro → Bool
unfolding after_line
after_lines [] before = before
after_lines (l ∷ rest) before = after_lines rest (after_line l before)

-- The `#ifdef` over the kinds of library.
unfoldable pub lines_for : (Macro → Bool) → (Macro → Bool) → List Line
unfolding so_lines dll_lines detours_lines regular_lines
lines_for flags before =
    if before so_library
    then so_lines flags
    else if before dll_library
    then dll_lines flags
    else if before detours
    then detours_lines flags
    else regular_lines flags
