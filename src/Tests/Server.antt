-- ===== src/Tests/Server.antt =====
-- The theorem about sessions by names at a concrete list of requests.
use fuseadf.Prelude.{◌≡◌, refl, some, List, [], ◌∷◌, map, codes, ℕ, Bytes, arith}
use fuseadf.Fs.Listing.{bounded}
use fuseadf.Fs.Requests.{serve}
use fuseadf.Named.Change.{make_file}
use fuseadf.Named.Transfer.{fetch, store}
use fuseadf.Named.Server.{
  Question, entry, names_in, room, look_at, change, move_to, set_mode, set_size, transfer_bytes,
  AllAllowed, spelled, answers,
}
use fuseadf.Named.Server.Refines.{serve_refines}
use fuseadf.Tests.Toy.{toy, toy_IsDirectory, toy_IsPositionFree, toy_KeepsOnFailure, inner_image}
use fuseadf.Tests.Host.{host}
use fuseadf.Tests.Split.{host-IsSplit}
use fuseadf.Tests.Names.{in_d, d_Names, letter}

abbrev questions : List (Question (ℕ × List Bytes))
questions =
    entry in_d (codes "n") (change make_file)
    ∷ entry in_d (codes "n") look_at
    ∷ entry [] (codes "f") (set_mode 0o500)
    ∷ entry in_d (codes "f") (transfer_bytes (store (codes "abc")) 3 1)
    ∷ entry in_d (codes "f") (transfer_bytes fetch 5 0)
    ∷ entry in_d (codes "f") (move_to [] (codes "g"))
    ∷ entry [] (codes "f") (set_size 2)
    ∷ names_in in_d (4, [])
    ∷ room (codes "/")
    ∷ []

questions-Allowed : AllAllowed bounded host questions
unfolding fuseadf.Path.path_create fuseadf.Workdir.Paths.join
questions-Allowed = (
  (d_Names, letter b'n' (omega arith), tt),
  (
    (d_Names, letter b'n' (omega arith), (_, refl)),
    (
      (tt, letter b'f' (omega arith), (_, refl)),
      (
        (d_Names, letter b'f' (omega arith), (_, refl)),
        (
          (d_Names, letter b'f' (omega arith), (_, refl)),
          (
            (
              d_Names,
              letter b'f' (omega arith),
              (
                (tt, letter b'g' (omega arith)),
                (
                  ((_, refl), (_, refl)),
                  ((_, refl), tt),
                  ((omega arith, refl, refl, refl), (omega arith, refl, refl, refl)),
                ),
              ),
            ),
            ((tt, letter b'f' (omega arith), (_, refl)), (d_Names, (tt, tt))),
          ),
        ),
      ),
    ),
  ),
)

serve_refines_example :
    serve bounded toy host 1 (map (spelled bounded) questions) inner_image
    ≡ some (answers bounded toy host 512 questions inner_image.vol)
serve_refines_example =
    serve_refines bounded toy host toy_IsDirectory toy_IsPositionFree toy_KeepsOnFailure
      host-IsSplit 0 questions inner_image questions-Allowed
