-- ===== src/Main/Listing.antt =====
-- Which directories the whole program opens for a listing.
use vs_ftp.Common.{◌≡◌, Bool, true, false, List, [], ◌∷◌, has_prefix}
use vs_ftp.Libc.{Bytes}
use vs_ftp.Os.{Call, Os}
use vs_ftp.Machine.{Machine, Event, did, undefined, zeroed}
use vs_ftp.Machine.Keeps.{lists}
use vs_ftp.Main.{main}
use vs_ftp.Main.Watching.{PlainPaths, Watch}
use vs_ftp.Main.Watched.{main-Watch}

-- A call opens no directory but one whose path begins with the root path.
abbrev pub OpensBelow : Bytes → Call → Type 0
OpensBelow root (Call.opendir p) = has_prefix root p ≡ true
OpensBelow root _ = Unit

abbrev pub ListsBelow : Bytes → List Event → Type 0
ListsBelow root [] = Unit
ListsBelow root (did c a ∷ l) = OpensBelow root c × ListsBelow root l
ListsBelow root (undefined f ∷ l) = ListsBelow root l

other-OpensBelow : (root : Bytes) (c : Call) → lists c ≡ false → OpensBelow root c
other-OpensBelow root (Call.opendir p) e = cc
other-OpensBelow root _ e = tt

module _ {K : Type 0} ⦃os : Os K⦄ where
  listings : Watch os ListsBelow
  listings = record {
    start = λ root. tt;
    call = λ root c a l e h. (other-OpensBelow root c e, h);
    opened = λ root p a l below h. (below, h);
    overflow = λ root sock k l over h. h;
    overread = λ root n l h. h;
  }

  -- If no path that `realpath` answers has a `%` in it, `main` started on its zeroed globals and an
  -- empty log opens no directory for a listing but those whose path begins with the bytes of the root path, whatever
  -- the arguments, the requests and the answers of the system are.
  pub main-ListsBelow :
      PlainPaths os
      → (arguments : List Bytes) (quits : List Bool) (s : Machine K) → s.server_data ≡ zeroed
      → s.log ≡ []
      → let t = (main arguments quits s).1 in ListsBelow t.server_data.root_path t.log
  main-ListsBelow paths = main-Watch listings paths
