-- ===== src/Globals/Tests.antt =====
-- `Cleanup` in a build with user programs and a file system.
use ooplatingsistm.Base.{◌≡◌, true, false, ◌&&◌, some}
use ooplatingsistm.Cmdline.{Build}
use ooplatingsistm.Globals.{Global, Globals, no_globals, create_all, created, cleanup}
use ooplatingsistm.Globals.Once.{among}
use ooplatingsistm.Globals.Leaves.{take, is_left, cleanup-leaves}

abbrev filesys_build : Build
filesys_build = record {
  threads = false;
  user_program = true;
  filesys_needed = true;
  filesys = true;
  network = false;
}

-- The user aborts before the file system is there.
abbrev so_far : Globals
so_far = create_all (take 7 (created filesys_build true)) no_globals

cleanup-leaves_example :
    (t : Globals) × (cleanup filesys_build so_far ≡ some t)
    × ((g : Global)
        → t.live (so_far.at g) ≡ (among (take 7 (created filesys_build true)) g && is_left g))
cleanup-leaves_example = cleanup-leaves filesys_build true 7
