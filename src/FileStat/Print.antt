-- ===== src/FileStat/Print.antt =====
-- `file_stat_print_all` of src/file_stat.c.
use iotrace.Base.{ℕ, List, [], ◌∷◌, ◌++◌, ℤ, CString, codes, to_gint64}
use iotrace.Glib.{Glib}
use iotrace.Double.{Double}
use iotrace.FileStat.{OpenCloseStat, ReadWriteStat, FileStat, FileStatTable}
use iotrace.Stdio.{text, ull, long, floating, Printf}

module _ ⦃d : Double⦄ where
  unfoldable pub print_open_close : CString → OpenCloseStat → Printf
  print_open_close format stat = record {
    format = format;
    args = ull stat.count ∷ ull stat.total_ns ∷ ull stat.min_ns ∷ ull stat.max_ns ∷ [];
  }

  -- `"[%ld, %ld], "` for each size of blocks.
  unfoldable pub print_blocks : List (ℤ × ℕ) → List Printf
  print_blocks [] = []
  print_blocks ((subkey, subvalue) ∷ rest) =
      record { format = codes "[%ld, %ld], "; args = long subkey ∷ long (to_gint64 subvalue) ∷ [] }
      ∷ print_blocks rest

module _ ⦃g : Glib⦄ ⦃d : Double⦄ where
  unfoldable pub print_read_write : CString → ReadWriteStat → List Printf
  unfolding print_blocks
  print_read_write format stat =
      record {
        format = format;
        args =
            ull stat.total_b
            ∷ ull stat.total_ns
            ∷ floating stat.min_bps
            ∷ floating stat.max_bps
            ∷ [];
      }
      ∷ record { format = codes "      blocks [bytes, count] -> "; args = [] }
      ∷ (print_blocks (g.entries stat.blocks) ++ record { format = codes "\n"; args = [] } ∷ [])

  -- The body of the loop over the files.
  unfoldable pub print_file : CString → FileStat → List Printf
  unfolding print_open_close print_read_write
  print_file key tmp =
      record { format = codes "File: %s\n"; args = text key ∷ [] }
      ∷ print_open_close
          (codes "  open  -> count: %llu, total: %llu ns, min: %llu ns, max: %llu ns\n")
          tmp.open_stats
      ∷ print_open_close
          (codes "  close -> count: %llu, total: %llu ns, min: %llu ns, max: %llu ns\n")
          tmp.close_stats
      ∷ (print_read_write
            (codes
              "  read  -> total bytes: %llu, total time: %llu ns, min: %f byte/s, max: %f byte/s\n")
            tmp.read_stats
          ++ print_read_write
              (codes
                "  write -> total bytes: %llu, total time: %llu ns, min: %f byte/s, max: %f byte/s\n")
              tmp.write_stats)

  unfoldable pub print_files : List (CString × FileStat) → List Printf
  unfolding print_file
  print_files [] = []
  print_files ((key, tmp) ∷ rest) = print_file key tmp ++ print_files rest

  unfoldable pub file_stat_print_all : FileStatTable → List Printf
  unfolding print_files
  file_stat_print_all file_stat_table =
      record { format = codes "FILE STATISTICS:\n\n"; args = [] }
      ∷ (print_files (g.entries file_stat_table) ++ record { format = codes "\n"; args = [] } ∷ [])
