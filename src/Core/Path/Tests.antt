-- ===== src/Core/Path/Tests.antt =====
-- Runs of the bounded join, and its theorems at concrete inputs.
use usb_sentinel.Prelude.{◌≡◌, refl, some, codes}
use usb_sentinel.Core.Path.{posix, is_separator, ends_in_separator, print_bounded, path_join}
use usb_sentinel.Status.{no_memory}

joining : Unit {0}
unfolding is_separator ends_in_separator print_bounded path_join
joining = tt

-- The path is cut where the buffer ends, and the status says so.
path_join_cut :
    path_join posix 4 (some (codes "/a/")) (some (codes "bc")) ≡ (no_memory, some (codes "/a/"))
unfolding joining
path_join_cut = refl
