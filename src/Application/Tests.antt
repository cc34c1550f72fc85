-- ===== src/Application/Tests.antt =====
-- Runs of `Plugify::Impl` on a disk that is the list of its directories.
use Prim.Native.String.{String}
use plugify.Prelude.{◌≡◌, refl, true, false, List, [], ◌∷◌, any_of}
use plugify.Config.{Config, default_config, resolve_relative_paths}
use plugify.Config.Sample.{same_path, os}
use plugify.Manager.Sample.{manager}
use plugify.Application.{
  Disk, overlap, check_path, check_paths, check_against, check_collisions, check_directories,
  Application, succeeded, wrong_thread, no_directories, initialize,
}

abbrev fs : Disk (List (List String)) (List String)
fs = record { is_exists = λ w p. any_of (same_path p) w; make_directories = λ w p. p ∷ w }

abbrev placed : Config (List String)
placed = record (default_config os) {
  paths =
      resolve_relative_paths os (record (default_config os).paths { base_dir = "/" ∷ "srv" ∷ [] });
}

abbrev app : Application os fs
app = record {
  config = placed;
  manager = manager;
  initialized = false;
  owner_thread = 1;
  disk = ("/" ∷ "srv" ∷ []) ∷ [];
}

started : (initialize os fs 1 app).1 ≡ succeeded
unfolding initialize check_directories check_paths check_path check_collisions check_against overlap
    default_config resolve_relative_paths
started = refl

logs_made : any_of (same_path ("/" ∷ "srv" ∷ "logs" ∷ [])) (initialize os fs 1 app).0.disk ≡ true
unfolding initialize check_directories check_paths check_path check_collisions check_against overlap
    default_config resolve_relative_paths
logs_made = refl

other_thread : (initialize os fs 2 app).1 ≡ wrong_thread
unfolding initialize
other_thread = refl

-- The logs in a directory of the cache.
abbrev inside_cache : Application os fs
inside_cache = record app {
  config = record placed {
    paths = record placed.paths { logs_dir = "/" ∷ "srv" ∷ "cache" ∷ "logs" ∷ [] };
  };
}

refused : (initialize os fs 1 inside_cache).1 ≡ no_directories
unfolding initialize check_directories check_paths check_path check_collisions check_against overlap
    default_config resolve_relative_paths
refused = refl
