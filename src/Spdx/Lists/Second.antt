-- ===== src/Spdx/Lists/Second.antt =====
-- src/as-spdx-data.h: the ids of licenses from CECILL-2.0 to Kazlib.
use appstream.Base.{List, [], ◌∷◌, Bytes, codes}

abbrev pub second_ids : List Bytes
second_ids =
    codes "CECILL-2.0"
    ∷ codes "CECILL-2.1"
    ∷ codes "CECILL-B"
    ∷ codes "CECILL-C"
    ∷ codes "CERN-OHL-1.1"
    ∷ codes "CERN-OHL-1.2"
    ∷ codes "CERN-OHL-P-2.0"
    ∷ codes "CERN-OHL-S-2.0"
    ∷ codes "CERN-OHL-W-2.0"
    ∷ codes "CFITSIO"
    ∷ codes "CMU-Mach"
    ∷ codes "CNRI-Jython"
    ∷ codes "CNRI-Python"
    ∷ codes "CNRI-Python-GPL-Compatible"
    ∷ codes "COIL-1.0"
    ∷ codes "CPAL-1.0"
    ∷ codes "CPL-1.0"
    ∷ codes "CPOL-1.02"
    ∷ codes "CUA-OPL-1.0"
    ∷ codes "Caldera"
    ∷ codes "ClArtistic"
    ∷ codes "Clips"
    ∷ codes "Community-Spec-1.0"
    ∷ codes "Condor-1.1"
    ∷ codes "Cornell-Lossless-JPEG"
    ∷ codes "Cronyx"
    ∷ codes "Crossword"
    ∷ codes "CrystalStacker"
    ∷ codes "Cube"
    ∷ codes "D-FSL-1.0"
    ∷ codes "DL-DE-BY-2.0"
    ∷ codes "DL-DE-ZERO-2.0"
    ∷ codes "DOC"
    ∷ codes "DRL-1.0"
    ∷ codes "DSDP"
    ∷ codes "Dotseqn"
    ∷ codes "ECL-1.0"
    ∷ codes "ECL-2.0"
    ∷ codes "EFL-1.0"
    ∷ codes "EFL-2.0"
    ∷ codes "EPICS"
    ∷ codes "EPL-1.0"
    ∷ codes "EPL-2.0"
    ∷ codes "EUDatagrid"
    ∷ codes "EUPL-1.0"
    ∷ codes "EUPL-1.1"
    ∷ codes "EUPL-1.2"
    ∷ codes "Elastic-2.0"
    ∷ codes "Entessa"
    ∷ codes "ErlPL-1.1"
    ∷ codes "Eurosym"
    ∷ codes "FBM"
    ∷ codes "FDK-AAC"
    ∷ codes "FSFAP"
    ∷ codes "FSFUL"
    ∷ codes "FSFULLR"
    ∷ codes "FSFULLRWD"
    ∷ codes "FTL"
    ∷ codes "Fair"
    ∷ codes "Ferguson-Twofish"
    ∷ codes "Frameworx-1.0"
    ∷ codes "FreeBSD-DOC"
    ∷ codes "FreeImage"
    ∷ codes "Furuseth"
    ∷ codes "GD"
    ∷ codes "GFDL-1.1"
    ∷ codes "GFDL-1.1-invariants-only"
    ∷ codes "GFDL-1.1-invariants-or-later"
    ∷ codes "GFDL-1.1-no-invariants-only"
    ∷ codes "GFDL-1.1-no-invariants-or-later"
    ∷ codes "GFDL-1.1-only"
    ∷ codes "GFDL-1.1-or-later"
    ∷ codes "GFDL-1.2"
    ∷ codes "GFDL-1.2-invariants-only"
    ∷ codes "GFDL-1.2-invariants-or-later"
    ∷ codes "GFDL-1.2-no-invariants-only"
    ∷ codes "GFDL-1.2-no-invariants-or-later"
    ∷ codes "GFDL-1.2-only"
    ∷ codes "GFDL-1.2-or-later"
    ∷ codes "GFDL-1.3"
    ∷ codes "GFDL-1.3-invariants-only"
    ∷ codes "GFDL-1.3-invariants-or-later"
    ∷ codes "GFDL-1.3-no-invariants-only"
    ∷ codes "GFDL-1.3-no-invariants-or-later"
    ∷ codes "GFDL-1.3-only"
    ∷ codes "GFDL-1.3-or-later"
    ∷ codes "GL2PS"
    ∷ codes "GLWTPL"
    ∷ codes "GNU-compiler-exception"
    ∷ codes "GPL-1.0"
    ∷ codes "GPL-1.0+"
    ∷ codes "GPL-1.0-only"
    ∷ codes "GPL-1.0-or-later"
    ∷ codes "GPL-2.0"
    ∷ codes "GPL-2.0+"
    ∷ codes "GPL-2.0-only"
    ∷ codes "GPL-2.0-or-later"
    ∷ codes "GPL-2.0-with-GCC-exception"
    ∷ codes "GPL-2.0-with-autoconf-exception"
    ∷ codes "GPL-2.0-with-bison-exception"
    ∷ codes "GPL-2.0-with-classpath-exception"
    ∷ codes "GPL-2.0-with-font-exception"
    ∷ codes "GPL-3.0"
    ∷ codes "GPL-3.0+"
    ∷ codes "GPL-3.0-only"
    ∷ codes "GPL-3.0-or-later"
    ∷ codes "GPL-3.0-with-GCC-exception"
    ∷ codes "GPL-3.0-with-autoconf-exception"
    ∷ codes "Giftware"
    ∷ codes "Glide"
    ∷ codes "Glulxe"
    ∷ codes "Graphics-Gems"
    ∷ codes "HP-1986"
    ∷ codes "HP-1989"
    ∷ codes "HPND"
    ∷ codes "HPND-DEC"
    ∷ codes "HPND-Markus-Kuhn"
    ∷ codes "HPND-Pbmplus"
    ∷ codes "HPND-UC"
    ∷ codes "HPND-export-US"
    ∷ codes "HPND-export-US-modify"
    ∷ codes "HPND-sell-regexpr"
    ∷ codes "HPND-sell-variant"
    ∷ codes "HPND-sell-variant-MIT-disclaimer"
    ∷ codes "HTMLTIDY"
    ∷ codes "HaskellReport"
    ∷ codes "Hippocratic-2.1"
    ∷ codes "IBM-pibs"
    ∷ codes "ICU"
    ∷ codes "IEC-Code-Components-EULA"
    ∷ codes "IJG"
    ∷ codes "IJG-short"
    ∷ codes "IPA"
    ∷ codes "IPL-1.0"
    ∷ codes "ISC"
    ∷ codes "ImageMagick"
    ∷ codes "Imlib2"
    ∷ codes "Info-ZIP"
    ∷ codes "Inner-Net-2.0"
    ∷ codes "Intel"
    ∷ codes "Intel-ACPI"
    ∷ codes "Interbase-1.0"
    ∷ codes "JPL-image"
    ∷ codes "JPNIC"
    ∷ codes "JSON"
    ∷ codes "Jam"
    ∷ codes "JasPer-2.0"
    ∷ codes "Kastrup"
    ∷ codes "Kazlib"
    ∷ []
