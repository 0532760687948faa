-- ===== src/Ndfs/NameNode/RestartExamples.antt =====
-- A NameNode that made a directory and is started again.
use mini_hadoop.Common.{true, ◌≡◌, List, [], ◌∷◌, some, arith}
use mini_hadoop.Common.Int.{pos}
use mini_hadoop.Common.Text.{codes}
use mini_hadoop.Ndfs.FsNamesystem.{initial}
use mini_hadoop.Ndfs.FsNamesystem.Invariant.Operations.{
  Operation, op_mkdirs, op_start_file, op_add_block, op_delete, run,
}
use mini_hadoop.Ndfs.NameNode.Image.{start, stop, with_tree}
use mini_hadoop.Ndfs.NameNode.Restart.{start-stop}

abbrev some_operations : List Operation
some_operations =
    op_mkdirs (codes "/docs")
    ∷ op_start_file (pos 7) (codes "/docs/a") true
    ∷ op_add_block (pos 8) (codes "/docs/a")
    ∷ op_delete (codes "/none")
    ∷ []

start-stop_example :
    start (some (stop (run some_operations initial)))
    ≡ some (with_tree (run some_operations initial).tree)
start-stop_example = start-stop some_operations (ground arith)
