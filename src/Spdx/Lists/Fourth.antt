-- ===== src/Spdx/Lists/Fourth.antt =====
-- src/as-spdx-data.h: the ids of licenses from PSF-2.0 to zlib-acknowledgement.
use appstream.Base.{List, [], ◌∷◌, Bytes, codes}

abbrev pub fourth_ids : List Bytes
fourth_ids =
    codes "PSF-2.0"
    ∷ codes "Parity-6.0.0"
    ∷ codes "Parity-7.0.0"
    ∷ codes "Plexus"
    ∷ codes "PolyForm-Noncommercial-1.0.0"
    ∷ codes "PolyForm-Small-Business-1.0.0"
    ∷ codes "PostgreSQL"
    ∷ codes "Python-2.0"
    ∷ codes "Python-2.0.1"
    ∷ codes "QPL-1.0"
    ∷ codes "QPL-1.0-INRIA-2004"
    ∷ codes "Qhull"
    ∷ codes "RHeCos-1.1"
    ∷ codes "RPL-1.1"
    ∷ codes "RPL-1.5"
    ∷ codes "RPSL-1.0"
    ∷ codes "RSA-MD"
    ∷ codes "RSCPL"
    ∷ codes "Rdisc"
    ∷ codes "Ruby"
    ∷ codes "SANE-exception"
    ∷ codes "SAX-PD"
    ∷ codes "SCEA"
    ∷ codes "SGI-B-1.0"
    ∷ codes "SGI-B-1.1"
    ∷ codes "SGI-B-2.0"
    ∷ codes "SGI-OpenGL"
    ∷ codes "SGP4"
    ∷ codes "SHL-0.5"
    ∷ codes "SHL-0.51"
    ∷ codes "SISSL"
    ∷ codes "SISSL-1.2"
    ∷ codes "SL"
    ∷ codes "SMLNJ"
    ∷ codes "SMPPL"
    ∷ codes "SNIA"
    ∷ codes "SPL-1.0"
    ∷ codes "SSH-OpenSSH"
    ∷ codes "SSH-short"
    ∷ codes "SSPL-1.0"
    ∷ codes "SWL"
    ∷ codes "Saxpath"
    ∷ codes "SchemeReport"
    ∷ codes "Sendmail"
    ∷ codes "Sendmail-8.23"
    ∷ codes "SimPL-2.0"
    ∷ codes "Sleepycat"
    ∷ codes "Soundex"
    ∷ codes "Spencer-86"
    ∷ codes "Spencer-94"
    ∷ codes "Spencer-99"
    ∷ codes "StandardML-NJ"
    ∷ codes "SugarCRM-1.1.3"
    ∷ codes "SunPro"
    ∷ codes "Symlinks"
    ∷ codes "TAPR-OHL-1.0"
    ∷ codes "TCL"
    ∷ codes "TCP-wrappers"
    ∷ codes "TMate"
    ∷ codes "TORQUE-1.1"
    ∷ codes "TOSL"
    ∷ codes "TPDL"
    ∷ codes "TPL-1.0"
    ∷ codes "TTWL"
    ∷ codes "TTYP0"
    ∷ codes "TU-Berlin-1.0"
    ∷ codes "TU-Berlin-2.0"
    ∷ codes "TermReadKey"
    ∷ codes "Texinfo-exception"
    ∷ codes "UCAR"
    ∷ codes "UCL-1.0"
    ∷ codes "UPL-1.0"
    ∷ codes "URT-RLE"
    ∷ codes "Unicode-DFS-2015"
    ∷ codes "Unicode-DFS-2016"
    ∷ codes "Unicode-TOU"
    ∷ codes "UnixCrypt"
    ∷ codes "Unlicense"
    ∷ codes "VOSTROM"
    ∷ codes "VSL-1.0"
    ∷ codes "Vim"
    ∷ codes "W3C"
    ∷ codes "W3C-19980720"
    ∷ codes "W3C-20150513"
    ∷ codes "WTFPL"
    ∷ codes "Watcom-1.0"
    ∷ codes "Widget-Workshop"
    ∷ codes "Wsuipa"
    ∷ codes "X11"
    ∷ codes "X11-distribute-modifications-variant"
    ∷ codes "XFree86-1.1"
    ∷ codes "XSkat"
    ∷ codes "Xdebug-1.03"
    ∷ codes "Xerox"
    ∷ codes "Xfig"
    ∷ codes "Xnet"
    ∷ codes "YPL-1.0"
    ∷ codes "YPL-1.1"
    ∷ codes "ZPL-1.1"
    ∷ codes "ZPL-2.0"
    ∷ codes "ZPL-2.1"
    ∷ codes "Zed"
    ∷ codes "Zeeff"
    ∷ codes "Zend-2.0"
    ∷ codes "Zimbra-1.3"
    ∷ codes "Zimbra-1.4"
    ∷ codes "Zlib"
    ∷ codes "blessing"
    ∷ codes "bzip2-1.0.5"
    ∷ codes "bzip2-1.0.6"
    ∷ codes "check-cvs"
    ∷ codes "checkmk"
    ∷ codes "copyleft-next-0.3.0"
    ∷ codes "copyleft-next-0.3.1"
    ∷ codes "curl"
    ∷ codes "diffmark"
    ∷ codes "dtoa"
    ∷ codes "dvipdfm"
    ∷ codes "eCos-2.0"
    ∷ codes "eGenix"
    ∷ codes "etalab-2.0"
    ∷ codes "fwlw"
    ∷ codes "gSOAP-1.3b"
    ∷ codes "gnuplot"
    ∷ codes "iMatix"
    ∷ codes "libpng-2.0"
    ∷ codes "libselinux-1.0"
    ∷ codes "libtiff"
    ∷ codes "libutil-David-Nugent"
    ∷ codes "lsof"
    ∷ codes "magaz"
    ∷ codes "metamail"
    ∷ codes "mpi-permissive"
    ∷ codes "mpich2"
    ∷ codes "mplus"
    ∷ codes "pnmstitch"
    ∷ codes "psfrag"
    ∷ codes "psutils"
    ∷ codes "snprintf"
    ∷ codes "ssh-keyscan"
    ∷ codes "stunnel-exception"
    ∷ codes "swrule"
    ∷ codes "ulem"
    ∷ codes "w3m"
    ∷ codes "wxWindows"
    ∷ codes "xinetd"
    ∷ codes "xlock"
    ∷ codes "xpp"
    ∷ codes "zlib-acknowledgement"
    ∷ []
